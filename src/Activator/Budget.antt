-- ===== src/Activator/Budget.antt =====
-- How often the resolvers of a promise were called, and the rules by which the methods that take a
-- completion out of the state call them at most once.
pub mod Rules
use sdk_typescript.Prelude.{
  ℕ, ◌+◌, ◌≤◌, ◌≡◌, refl, inl, inr, Bool, true, false, Option, none, some, List, [], ◌∷◌, ◌++◌,
  arith, ◌==◌, if◌then◌else◌, is_some, Option-cases, not, ◌&&◌, nat_beq, Bool-cases,
}
use sdk_typescript.JsMap.{get, delete, get-delete}
use sdk_typescript.Errors.{JsError}
use sdk_typescript.Activator.{
  Activator, Kind, child_workflow_start, child_workflow_complete, kind_index, Key, key_same,
  key_beq_iff, Completion, Outcome, Settlement, Result, ok, throw, Exec, pure, raise, lift,
  continue, ◌>>=◌,
}
use sdk_typescript.Activator.Completions.{
  at, is_reject, chained_rejection, settle, drop_completion, get_seq, maybe_consume_completion,
  consume_completion,
}

-- How often a resolver of the promise `k` was called, other than by the chain from a child's start.
unfoldable pub times_settled : Key → List Settlement → ℕ
times_settled k [] = 0
times_settled k (s ∷ ss) = (if not s.chained && s.key == k then 1 else 0) + times_settled k ss

-- How often the chain from a child's start called a resolver of the promise `k`.
unfoldable pub times_chained : Key → List Settlement → ℕ
times_chained k [] = 0
times_chained k (s ∷ ss) = (if s.chained && s.key == k then 1 else 0) + times_chained k ss

-- Whether `s` is the rejection of the start of the child whose result is the promise `k`.
unfoldable pub rejects_start_of : Key → Settlement → Bool
unfolding is_reject
rejects_start_of k s =
    not s.chained
    && is_reject s.outcome
    && nat_beq (kind_index child_workflow_start) (kind_index s.key.kind)
    && at child_workflow_complete s.key.seq == k

unfoldable pub times_start_rejected : Key → List Settlement → ℕ
times_start_rejected k [] = 0
times_start_rejected k (s ∷ ss) =
    (if rejects_start_of k s then 1 else 0) + times_start_rejected k ss

-- Every rejection of a child's start was passed on to its result once, and nothing else was.
abbrev pub IsChained : Key → List Settlement → Type 0
IsChained k ss = times_chained k ss ≡ times_start_rejected k ss

times_settled-append :
    (k : Key) (ss ts : List Settlement)
    → times_settled k (ss ++ ts) ≡ times_settled k ss + times_settled k ts
unfolding times_settled
times_settled-append k [] ts = omega arith
times_settled-append k (s ∷ ss) ts = omega (arith, times_settled-append k ss ts)

append-IsChained :
    (k : Key) (ss ts : List Settlement) → IsChained k ss → IsChained k ts → IsChained k (ss ++ ts)
unfolding times_chained times_start_rejected
append-IsChained k ss ts p q = omega (arith, chained ss, rejected ss, p, q)
  where
    chained :
        (us : List Settlement)
        → times_chained k (us ++ ts) ≡ times_chained k us + times_chained k ts
    chained [] = omega arith
    chained (u ∷ us) = omega (arith, chained us)

    rejected :
        (us : List Settlement)
        → times_start_rejected k (us ++ ts) ≡ times_start_rejected k us + times_start_rejected k ts
    rejected [] = omega arith
    rejected (u ∷ us) = omega (arith, rejected us)

pub settle-IsChained :
    (j k : Key) (o : Outcome) (a : Activator)
    → IsChained j a.settled
    → IsChained j (settle k o a).1.settled
unfolding settle chained_rejection rejects_start_of times_chained times_start_rejected
settle-IsChained j k o a h = append-IsChained j a.settled _ h here
  where
    here : IsChained j (record { key = k; outcome = o; chained = false } ∷ chained_rejection k o)
    here =
        elim (Bool-cases
          (is_reject o && nat_beq (kind_index child_workflow_start) (kind_index k.kind))) [
            | inl e ↦ rw e (ground arith)
            | inr e ↦ rw e (ground arith)
          ]

abbrev one_if : Bool → ℕ
one_if true = 1
one_if false = 0

-- 1 while the promise's completion is in the state.
unfoldable pub pending : Key → Activator → ℕ
pending k a = one_if (is_some (get k a.completions))

unfoldable pub settled_count : Key → Activator → ℕ
settled_count k a = times_settled k a.settled

-- The calls made and the calls that may still be made.
unfoldable pub budget : Key → Activator → ℕ
budget k a = settled_count k a + pending k a

-- The step spends budget only.
pub record Spends (a b : Activator) : Type 0 where
  pub budgets : (k : Key) → budget k b ≤ budget k a
  pub pendings : (k : Key) → pending k b ≤ pending k a
  pub chains : (k : Key) → IsChained k a.settled → IsChained k b.settled
  pub seqs : b.next_seqs ≡ a.next_seqs

-- The same, and a call for `k` was taken out of the budget and not made yet.
pub record Holds (k : Key) (a b : Activator) : Type 0 where
  pub spends : Spends a b
  pub held : budget k b + 1 ≤ budget k a

pub Spends-refl : (a : Activator) → Spends a a
Spends-refl a = record {
  budgets = λ k. omega arith;
  pendings = λ k. omega arith;
  chains = λ k h. h;
  seqs = refl;
}

pub Spends-trans : {a b c : Activator} → Spends a b → Spends b c → Spends a c
Spends-trans p q = record {
  budgets = λ k. omega (arith, p.budgets k, q.budgets k);
  pendings = λ k. omega (arith, p.pendings k, q.pendings k);
  chains = λ k h. q.chains k (p.chains k h);
  seqs = ground (arith, p.seqs, q.seqs);
}

pub settled_count-settle :
    (j k : Key) (o : Outcome) (a : Activator)
    → settled_count j (settle k o a).1 ≡ settled_count j a + (if k == j then 1 else 0)
unfolding settle settled_count times_settled chained_rejection
settled_count-settle j k o a = rw times_settled-append (ground arith)

pub pending-settle :
    (j k : Key) (o : Outcome) (a : Activator) → pending j (settle k o a).1 ≡ pending j a
unfolding settle pending
pending-settle j k o a = refl

pending-drop :
    (j k : Key) (a : Activator)
    → pending j (drop_completion k a).1 ≡ (if k == j then 0 else pending j a)
unfolding drop_completion pending
pending-drop j k a = rw get-delete (ground arith)

settled_count-drop :
    (j k : Key) (a : Activator) → settled_count j (drop_completion k a).1 ≡ settled_count j a
unfolding drop_completion settled_count
settled_count-drop j k a = refl

-- A method that may call the resolvers of `k` once, when they were taken out before.
pub record Pays {ℓ} {A : Type ℓ} (k : Key) (m : Exec A) : Type ℓ where
  pub pays : (a b : Activator) → Holds k a b → Spends a (m b).1

-- A method that calls only the resolvers that it takes out.
pub record Frugal {ℓ} {A : Type ℓ} (m : Exec A) : Type ℓ where
  pub spends : (a : Activator) → Spends a (m a).1

module _ {ℓ} {A : Type ℓ} where
  pub Frugal-raise : (e : JsError) → Frugal (raise {A = A} e)
  Frugal-raise e = record { spends = λ a. Spends-refl a }

  pub Frugal-pure : (x : A) → Frugal (pure x)
  Frugal-pure x = record { spends = λ a. Spends-refl a }

  pub Frugal-lift : (r : Result A) → Frugal (lift r)
  Frugal-lift r = record { spends = λ a. Spends-refl a }

  pub Frugal-Pays : (k : Key) (m : Exec A) → Frugal m → Pays k m
  Frugal-Pays k m f = record { pays = λ a b h. Spends-trans h.spends (f.spends b) }

pub Frugal-drop : (k : Key) → Frugal (drop_completion k)
unfolding budget
Frugal-drop k = record {
  spends = λ a. record {
    budgets = λ j. ground (arith, pending-drop j k a, settled_count-drop j k a);
    pendings = λ j. ground (arith, pending-drop j k a);
    chains = unfold drop_completion in λ j h. h;
    seqs = unfold drop_completion in refl;
  };
}

pub Pays-settle : (k : Key) (o : Outcome) → Pays k (settle k o)
unfolding budget
Pays-settle k o = record {
  pays = λ a b h. record {
    budgets = λ j. ground (
      arith,
      settled_count-settle j k o b,
      pending-settle j k o b,
      h.held,
      h.spends.budgets j,
      key_beq_iff k j,
      h.spends.budgets k,
    );
    pendings = λ j. omega (arith, pending-settle j k o b, h.spends.pendings j);
    chains = λ j c. settle-IsChained j k o b (h.spends.chains j c);
    seqs = unfold settle in h.spends.seqs;
  };
}
