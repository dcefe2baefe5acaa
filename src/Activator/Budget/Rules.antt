-- ===== src/Activator/Budget/Rules.antt =====
-- One rule for each way to build a method, by which a method is shown to settle at most once.
use sdk_typescript.Prelude.{◌∙◌, ℕ, ◌≡◌, inl, inr, Option, none, some, arith, Option-cases}
use sdk_typescript.JsMap.{get, delete}
use sdk_typescript.Activator.{
  Activator, Kind, Key, key_same, key_beq_iff, Completion, Result, ok, throw, Exec, raise, lift,
  continue, ◌>>=◌,
}
use sdk_typescript.Activator.Completions.{
  at, drop_completion, get_seq, maybe_consume_completion, consume_completion,
}
use sdk_typescript.Activator.Budget.{
  settled_count, Spends, Holds, Spends-refl, Spends-trans, Pays, Frugal, Frugal-raise, Frugal-Pays,
  Frugal-drop, budget, pending, pending-drop, settled_count-drop,
}

module _ {ℓ κ} {A : Type ℓ} {B : Type κ} where
  pub Frugal-bind :
      (m : Exec A) (f : A → Exec B) → Frugal m → ((x : A) → Frugal (f x)) → Frugal (m >>= f)
  Frugal-bind m f fm ff = record {
    spends = λ a. let (r, b) = m a in Spends-trans (fm.spends a) (rest r b);
  }
    where
      rest : (r : Result A) (b : Activator) → Spends b (continue r f b).1
      rest (ok x) b = (ff x).spends b
      rest (throw e) b = Spends-refl b

  pub Pays-bind :
      (k : Key) (m : Exec A) (f : A → Exec B)
      → Pays k m
      → ((x : A) → Frugal (f x))
      → Pays k (m >>= f)
  Pays-bind k m f pm ff = record {
    pays = λ a b h. let (r, c) = m b in Spends-trans (pm.pays a b h) (rest r c);
  }
    where
      rest : (r : Result A) (b : Activator) → Spends b (continue r f b).1
      rest (ok x) b = (ff x).spends b
      rest (throw e) b = Spends-refl b

  pub Pays-bind-lift :
      (k : Key) (r : Result A) (f : A → Exec B) → ((x : A) → Pays k (f x)) → Pays k (lift r >>= f)
  Pays-bind-lift k (ok x) f pf = pf x
  Pays-bind-lift k (throw e) f pf = Frugal-Pays k (raise e) (Frugal-raise e)

Holds-drop : (k : Key) (a : Activator) → pending k a ≡ 1 → Holds k a (drop_completion k a).1
unfolding budget
Holds-drop k a h = record {
  spends = (Frugal-drop k).spends a;
  held = ground (arith, pending-drop k k a, settled_count-drop k k a, key_beq_iff k k);
}

pub Spends-drop {ℓ} :
    {B : Type ℓ} (k : Key) (a : Activator) (c : Completion) (m : Exec B)
    → get k a.completions ≡ some c
    → Pays k m
    → Spends a (m (record a { completions = delete k a.completions })).1
unfolding drop_completion pending
Spends-drop k a c m e pm = pm.pays a _ (Holds-drop k a (rw e))

module _ {ℓ} {B : Type ℓ} (kind : Kind) (n : ℕ) where
  pub Frugal-maybe_consume :
      (f : Option Completion → Exec B)
      → Frugal (f none)
      → ((c : Completion) → Pays (at kind n) (f (some c)))
      → Frugal (maybe_consume_completion kind n >>= f)
  unfolding maybe_consume_completion
  Frugal-maybe_consume f missing found = record {
    spends = λ a. elim (Option-cases (get (at kind n) a.completions)) [
      | inl e ↦ rw e (missing.spends a)
      | inr (c, e) ↦ rw e (Spends-drop (at kind n) a c (f (some c)) e (found c))
    ];
  }

  pub Frugal-consume :
      (f : Completion → Exec B)
      → ((c : Completion) → Pays (at kind n) (f c))
      → Frugal (consume_completion kind n >>= f)
  unfolding consume_completion maybe_consume_completion
  Frugal-consume f found = record {
    spends = λ a. elim (Option-cases (get (at kind n) a.completions)) [
      | inl e ↦ rw e (Spends-refl a)
      | inr (c, e) ↦ rw e (Spends-drop (at kind n) a c (f c) e (found c))
    ];
  }

-- The seq of a job is checked before anything else.
pub Frugal-get_seq {ℓ} :
    {B : Type ℓ} (seq : Option ℕ) (f : ℕ → Exec B)
    → ((n : ℕ) → Frugal (f n))
    → Frugal (get_seq seq >>= f)
unfolding get_seq
Frugal-get_seq none f ff = Frugal-raise _
Frugal-get_seq (some n) f ff = ff n

-- A step that leaves the completions, the settlements and the counters alone.
pub Frugal-other {ℓ} :
    {A : Type ℓ} (m : Exec A)
    → ((a : Activator)
        → ((m a).1.completions ≡ a.completions)
          × ((m a).1.settled ≡ a.settled)
          × ((m a).1.next_seqs ≡ a.next_seqs))
    → Frugal m
unfolding budget pending settled_count
Frugal-other m same = record {
  spends = λ a. record {
    budgets = λ k. rw ((same a).0, (same a).1) (omega arith);
    pendings = λ k. rw ((same a).0) (omega arith);
    chains = λ k h. rw ((same a).1) h;
    seqs = (same a).2;
  };
}

pub Holds-other :
    (k : Key) (a b c : Activator)
    → Holds k a b
    → c.completions ≡ b.completions
    → c.settled ≡ b.settled
    → c.next_seqs ≡ b.next_seqs
    → Holds k a c
unfolding budget pending settled_count
Holds-other k a b c h p q r = record {
  spends = record {
    budgets = λ j. rw (p, q) (h.spends.budgets j);
    pendings = λ j. rw p (h.spends.pendings j);
    chains = λ j x. rw q (h.spends.chains j x);
    seqs = r ∙ h.spends.seqs;
  };
  held = rw (p, q) h.held;
}
