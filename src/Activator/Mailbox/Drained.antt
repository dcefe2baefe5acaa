-- ===== src/Activator/Mailbox/Drained.antt =====
-- The loop over a buffer against a plain description of what it delivers.
use sdk_typescript.Prelude.{
  ℕ, zero, suc, ◌≤◌, ◌≡◌, refl, sym, ap, ◌∙◌, Bool, true, false, not, Option, none, some, List, [],
  ◌∷◌, arith, length, filter_by, All,
}
use sdk_typescript.Activator.{Activator, ok}
use sdk_typescript.Activator.Mailbox.{
  Mailbox, take_first, next_message, round, dispatch, dispatch_buffered,
}

-- What a mailbox promises: the buffer is a field, and a message that is accepted is started, which
-- touches neither the buffer nor the handlers.
pub record IsLawful {T : Type 0} (m : Mailbox T) (start : T → Activator → Activator) : Type 0 where
  pub buffer-put : (l : List T) (a : Activator) → m.buffer (m.put l a) ≡ l
  pub put-put : (l k : List T) (a : Activator) → m.put l (m.put k a) ≡ m.put l a
  pub put-buffer : (a : Activator) → m.put (m.buffer a) a ≡ a
  pub handled-put : (l : List T) (a : Activator) → m.handled (m.put l a) ≡ m.handled a
  pub default-put : (l : List T) (a : Activator) → m.default (m.put l a) ≡ m.default a
  pub handled-start : (x : T) (a : Activator) → m.handled (start x a) ≡ m.handled a
  pub default-start : (x : T) (a : Activator) → m.default (start x a) ≡ m.default a
  pub start-put : (x : T) (l : List T) (a : Activator) → start x (m.put l a) ≡ m.put l (start x a)

-- The messages started one after the other.
pub start_all : {T : Type 0} → (T → Activator → Activator) → List T → Activator → Activator
start_all start [] a = a
start_all start (x ∷ xs) a = start_all start xs (start x a)

abbrev Split : {T : Type 0} → (T → Bool) → List T → Option (T × List T) → Type 0
Split p xs none = (filter_by p xs ≡ []) × (filter_by (λ x. not (p x)) xs ≡ xs)
Split p xs (some (y, ys)) =
    (p y ≡ true)
    × (filter_by p xs ≡ y ∷ filter_by p ys)
    × (filter_by (λ x. not (p x)) xs ≡ filter_by (λ x. not (p x)) ys)
    × (length xs ≡ suc (length ys))

take_first-Split : {T : Type 0} (p : T → Bool) (xs : List T) → Split p xs (take_first p xs)
unfolding take_first
take_first-Split p [] = (refl, refl)
take_first-Split p (x ∷ xs) = ground (arith, take_first-Split p xs)

abbrev Kept : {T : Type 0} → (T → Type 0) → Option (T × List T) → Type 0
Kept V none = Unit {0}
Kept V (some (y, ys)) = V y × All V ys

All-take_first :
    {T : Type 0} (V : T → Type 0) (p : T → Bool) (xs : List T) → All V xs → Kept V (take_first p xs)
unfolding take_first
All-take_first V p [] v = tt
All-take_first V p (x ∷ xs) v = ground (arith, All-take_first V p xs v.1)

module _ {T : Type 0} (m : Mailbox T) (start : T → Activator → Activator)
    (law : IsLawful m start) where
  start_all-put :
      (xs l : List T) (a : Activator)
      → start_all start xs (m.put l a) ≡ m.put l (start_all start xs a)
  unfolding start_all
  start_all-put [] l a = refl
  start_all-put (x ∷ xs) l a = rw (law.start-put x l a) (start_all-put xs l (start x a))

  -- The messages with a handler are started in order, and the others stay in the buffer in order.
  unfoldable pub drained : List T → Activator → Activator
  drained l a =
      m.put (filter_by (λ x. not (m.handled a x)) l) (start_all start (filter_by (m.handled a) l) a)

  drained_none :
      (a : Activator) (l : List T)
      → m.buffer a ≡ l
      → filter_by (m.handled a) l ≡ []
      → filter_by (λ x. not (m.handled a x)) l ≡ l
      → a ≡ drained l a
  unfolding start_all drained
  drained_none a l e p q =
      sym (law.put-buffer a)
      ∙ ap (λ k. m.put k a) (e ∙ sym q)
      ∙ ap (λ k. m.put (filter_by (λ x. not (m.handled a x)) l) (start_all start k a)) (sym p)

  put_buffer : (a : Activator) → m.buffer a ≡ [] → a ≡ m.put [] a
  put_buffer a e = sym (ap (λ k. m.put k a) (sym e) ∙ law.put-buffer a)

  handled-next :
      (y : T) (ys : List T) (a : Activator) → m.handled (start y (m.put ys a)) ≡ m.handled a
  handled-next y ys a = law.handled-start y (m.put ys a) ∙ law.handled-put ys a

  -- One round takes the first message that has a handler.
  drained_round :
      (a : Activator) (l : List T) (y : T) (ys : List T)
      → filter_by (m.handled a) l ≡ y ∷ filter_by (m.handled a) ys
      → filter_by (λ x. not (m.handled a x)) l ≡ filter_by (λ x. not (m.handled a x)) ys
      → drained ys (start y (m.put ys a)) ≡ drained l a
  unfolding start_all drained
  drained_round a l y ys p q =
      ap (λ h. m.put (filter_by (λ x. not (h x)) ys) (start_all start (filter_by h ys) next))
        (handled-next y ys a)
      ∙ ap (λ b. m.put left (start_all start taken b)) (law.start-put y ys a)
      ∙ ap (m.put left) (start_all-put taken ys (start y a))
      ∙ law.put-put left ys (start_all start taken (start y a))
      ∙ ap (λ k. m.put k (start_all start taken (start y a))) (sym q)
      ∙ ap (λ k. m.put (filter_by (λ x. not (m.handled a x)) l) (start_all start k a)) (sym p)
    where
      next : Activator
      next = start y (m.put ys a)

      left : List T
      left = filter_by (λ x. not (m.handled a x)) ys

      taken : List T
      taken = filter_by (m.handled a) ys

module _ {T : Type 0} (m : Mailbox T) (start : T → Activator → Activator) (law : IsLawful m start)
    (V : T → Type 0)
    (starts : (x : T) (a : Activator)
      → V x
      → m.handled a x ≡ true
      → m.deliver x a ≡ (ok tt, start x a)) where
  dispatch-drained :
      (fuel : ℕ) (a : Activator) (l : List T)
      → m.buffer a ≡ l
      → length l ≤ fuel
      → m.default a ≡ false
      → All V l
      → dispatch m fuel a ≡ (ok tt, drained m start law l a)
  unfolding dispatch round next_message
  dispatch-drained zero a [] e h d v =
      ap (λ b. (ok tt, b)) (drained_none m start law a [] e refl refl)
  dispatch-drained zero a (x ∷ xs) e h d v = absurd (omega arith)
  dispatch-drained (suc fuel) a [] e h d v =
      rw e (ap (λ b. (ok tt, b)) (drained_none m start law a [] e refl refl))
  dispatch-drained (suc fuel) a (x ∷ xs) e h d v =
      rw (e, d)
        (found (take_first (m.handled a) (x ∷ xs)) (take_first-Split (m.handled a) (x ∷ xs))
          (All-take_first V (m.handled a) (x ∷ xs) v) (dispatch-drained fuel))
    where
      found :
          (o : Option (T × List T))
          → Split (m.handled a) (x ∷ xs) o
          → Kept V o
          → ((b : Activator) (l : List T)
              → m.buffer b ≡ l
              → length l ≤ fuel
              → m.default b ≡ false
              → All V l
              → dispatch m fuel b ≡ (ok tt, drained m start law l b))
          → round m (dispatch m fuel) o a ≡ (ok tt, drained m start law (x ∷ xs) a)
      found none split kept again =
          ap (λ b. (ok tt, b)) (drained_none m start law a (x ∷ xs) e split.0 split.1)
      found (some (y, ys)) split kept again =
          rw (starts y (m.put ys a) kept.0 (ap (λ h. h y) (law.handled-put ys a) ∙ split.0)) (
            again (start y (m.put ys a)) ys buffer_left (omega (arith, split.3))
              (law.default-start y (m.put ys a) ∙ law.default-put ys a ∙ d) kept.1
            ∙ ap (λ b. (ok tt, b)) (drained_round m start law a (x ∷ xs) y ys split.1 split.2))
        where
          buffer_left : m.buffer (start y (m.put ys a)) ≡ ys
          buffer_left = ap m.buffer (law.start-put y ys a) ∙ law.buffer-put ys (start y a)

  -- With no default handler the loop ends, with the messages that have a handler started.
  pub dispatch_drained :
      (a : Activator)
      → m.default a ≡ false
      → All V (m.buffer a)
      → dispatch_buffered m a ≡ (ok tt, drained m start law (m.buffer a) a)
  unfolding dispatch_buffered
  dispatch_drained a d v =
      dispatch-drained (length (m.buffer a)) a (m.buffer a) refl (omega arith) d v

module _ {T : Type 0} (m : Mailbox T) (start : T → Activator → Activator) (law : IsLawful m start)
    (V : T → Type 0)
    (starts : (x : T) (a : Activator)
      → V x
      → m.default a ≡ true
      → m.deliver x a ≡ (ok tt, start x a)) where
  dispatch-emptied :
      (fuel : ℕ) (a : Activator) (l : List T)
      → m.buffer a ≡ l
      → length l ≤ fuel
      → m.default a ≡ true
      → All V l
      → dispatch m fuel a ≡ (ok tt, m.put [] (start_all start l a))
  unfolding dispatch round next_message start_all
  dispatch-emptied zero a [] e h d v = ap (λ b. (ok tt, b)) (put_buffer m start law a e)
  dispatch-emptied zero a (x ∷ xs) e h d v = absurd (omega arith)
  dispatch-emptied (suc fuel) a [] e h d v =
      rw e (ap (λ b. (ok tt, b)) (put_buffer m start law a e))
  dispatch-emptied (suc fuel) a (x ∷ xs) e h d v =
      rw (e, d, starts x (m.put xs a) v.0 (law.default-put xs a ∙ d))
        (dispatch-emptied fuel (start x (m.put xs a)) xs
            (ap m.buffer (law.start-put x xs a) ∙ law.buffer-put xs (start x a)) (omega arith)
            (law.default-start x (m.put xs a) ∙ law.default-put xs a ∙ d) v.1
          ∙ ap (λ b. (ok tt, b))
              (ap (λ b. m.put [] (start_all start xs b)) (law.start-put x xs a)
                ∙ ap (m.put []) (start_all-put m start law xs xs (start x a))
                ∙ law.put-put [] xs (start_all start xs (start x a))))

  -- With a default handler every message is started, in order, and the buffer is left empty.
  pub dispatch_emptied :
      (a : Activator)
      → m.default a ≡ true
      → All V (m.buffer a)
      → dispatch_buffered m a ≡ (ok tt, m.put [] (start_all start (m.buffer a) a))
  unfolding dispatch_buffered
  dispatch_emptied a d v =
      dispatch-emptied (length (m.buffer a)) a (m.buffer a) refl (omega arith) d v
