-- ===== src/Gateway/Sse/Events.antt =====
-- The events of a stream one after the other: _SseBookkeeper of src/inferrail/gateway/execution.py.
use inferrail.Common.{
  ℕ, zero, suc, ◌+◌, ◌≤◌, ◌<◌, ◌≡◌, sym, ap, ◌∙◌, subst, Bool, true, false, ◌&&◌, [], ◌∷◌, ◌++◌,
  Option, none, some, if◌then◌else◌, ◌==◌, length, arith, Option-cases, inl, inr, of_some,
}
use inferrail.Gateway.Sse.{Bytes, cons_event, split_event, handle_first, handle_events}

pub length-append : (x d : Bytes) → length (x ++ d) ≡ length x + length d
length-append [] d = omega arith
length-append (b ∷ x) d = omega (arith, length-append x d)

cons_event-some :
    (b : ℕ) (o : Option (Bytes × Bytes)) (e r : Bytes)
    → cons_event b o ≡ some (e, r)
    → (f : Bytes) × (o ≡ some (f, r)) × (e ≡ b ∷ f)
cons_event-some b none e r h = absurd (ground (arith, h))
cons_event-some b (some (f, s)) e r h = (f, ground (arith, h), ground (arith, h))

grows_at :
    (t : Bool) (b : ℕ) (y d e r : Bytes) (o o' : Option (Bytes × Bytes))
    → (if t then some ([], y) else cons_event b o) ≡ some (e, r)
    → ((f : Bytes) → o ≡ some (f, r) → o' ≡ some (f, r ++ d))
    → (if t then some ([], y ++ d) else cons_event b o') ≡ some (e, r ++ d)
grows_at true b y d e r o o' h k =
    let p = of_some ([], y) (e, r) h in ap (λ (z : Bytes × Bytes). some (z.0, z.1 ++ d)) p
grows_at false b y d e r o o' h k =
    let (f, q, p) = cons_event-some b o e r h in
    ap (cons_event b) (k f q) ∙ ap (λ z. some (z, r ++ d)) (sym p)

-- a boundary that is there stays where it is when more bytes follow
split_grows :
    (x d e r : Bytes) → split_event x ≡ some (e, r) → split_event (x ++ d) ≡ some (e, r ++ d)
unfolding split_event
split_grows [] d e r h = absurd (ground (arith, h))
split_grows (b ∷ []) d e r h = absurd (ground (arith, h))
split_grows (b ∷ c ∷ x) d e r h =
    grows_at (b == 10 && c == 10) b x d e r (split_event (c ∷ x)) (split_event (c ∷ x ++ d)) h
      (λ f q. split_grows (c ∷ x) d f r q)

shorter_at :
    (t : Bool) (b : ℕ) (y e r : Bytes) (o : Option (Bytes × Bytes)) (n : ℕ)
    → (if t then some ([], y) else cons_event b o) ≡ some (e, r)
    → length y < n
    → ((f : Bytes) → o ≡ some (f, r) → length r < n)
    → length r < n
shorter_at true b y e r o n h l k =
    subst (λ (z : Bytes). length z < n) (ap (λ (z : Bytes × Bytes). z.1) (of_some ([], y) (e, r) h))
      l
shorter_at false b y e r o n h l k = let (f, q, p) = cons_event-some b o e r h in k f q

-- what is left after a boundary is shorter
split_shorter : (x e r : Bytes) → split_event x ≡ some (e, r) → length r < length x
unfolding split_event
split_shorter [] e r h = absurd (ground (arith, h))
split_shorter (b ∷ []) e r h = absurd (ground (arith, h))
split_shorter (b ∷ c ∷ x) e r h =
    shorter_at (b == 10 && c == 10) b x e r (split_event (c ∷ x)) (length (b ∷ c ∷ x)) h
      (omega arith) (λ f q. let l = split_shorter (c ∷ x) f r q in omega (arith, l))

module _ {U : Type 0} (handle : U → Bytes → U) where
  abbrev Loop : Type 0
  Loop = Bytes → U → Bytes × U

  first_split :
      (o : Option (Bytes × Bytes)) (x e r : Bytes) (u : U) (loop : Loop)
      → o ≡ some (e, r)
      → handle_first handle o x u loop ≡ loop r (handle u e)
  first_split o x e r u loop h = ap (λ z. handle_first handle z x u loop) h

  first_whole :
      (o : Option (Bytes × Bytes)) (x : Bytes) (u : U) (loop : Loop)
      → o ≡ none
      → handle_first handle o x u loop ≡ (x, u)
  first_whole o x u loop h = ap (λ z. handle_first handle z x u loop) h

  -- more fuel than bytes is enough, however much it is
  pub enough_fuel :
      (f g : ℕ) (x : Bytes) (u : U)
      → length x < f
      → length x < g
      → handle_events handle f x u ≡ handle_events handle g x u
  unfolding handle_events
  enough_fuel zero g x u h k = absurd (omega (arith, h))
  enough_fuel (suc f) zero x u h k = absurd (omega (arith, k))
  enough_fuel (suc f) (suc g) x u h k = elim (Option-cases (split_event x)) [
    | inl whole ↦
        first_whole (split_event x) x u (λ r v. handle_events handle f r v) whole
        ∙ sym (first_whole (split_event x) x u (λ r v. handle_events handle g r v) whole)
    | inr ((e, r), split) ↦
        let l = split_shorter x e r split in
        first_split (split_event x) x e r u (λ r v. handle_events handle f r v) split
        ∙ enough_fuel f g r (handle u e) (omega (arith, l, h)) (omega (arith, l, k))
        ∙ sym (first_split (split_event x) x e r u (λ r v. handle_events handle g r v) split)
  ]

  pub left_shorter : (f : ℕ) (x : Bytes) (u : U) → length (handle_events handle f x u).0 ≤ length x
  unfolding handle_events
  left_shorter zero x u = omega arith
  left_shorter (suc f) x u = elim (Option-cases (split_event x)) [
    | inl whole ↦ omega (
      arith,
      ap (λ z. length z.0)
          (first_whole (split_event x) x u (λ r v. handle_events handle f r v) whole),
    )
    | inr ((e, r), split) ↦ omega (
      arith,
      split_shorter x e r split,
      left_shorter f r (handle u e),
      ap (λ z. length z.0)
          (first_split (split_event x) x e r u (λ r v. handle_events handle f r v) split),
    )
  ]

  -- The events of some bytes can be taken before the bytes that follow are there.
  pub events_append :
      (f g : ℕ) (x d : Bytes) (u : U)
      → length x < f
      → length (x ++ d) < g
      → handle_events handle g (x ++ d) u
        ≡ (let first = handle_events handle f x u in handle_events handle g (first.0 ++ d) first.1)
  unfolding handle_events
  events_append zero g x d u h k = absurd (omega (arith, h))
  events_append (suc f) zero x d u h k = absurd (omega (arith, k))
  events_append (suc f) (suc g) x d u h k = elim (Option-cases (split_event x)) [
    | inl whole ↦ sym (
        ap (λ z. handle_events handle (suc g) (z.0 ++ d) z.1)
          (first_whole (split_event x) x u (λ r v. handle_events handle f r v) whole))
    | inr ((e, r), split) ↦
        let l = split_shorter x e r split in
        let v = handle u e in
        let first = handle_events handle f r v in
        first_split (split_event (x ++ d)) (x ++ d) e (r ++ d) u (λ y w. handle_events handle g y w)
          (split_grows x d e r split)
        ∙ events_append f g r d v (omega (arith, l, h))
            (omega (arith, k, l, length-append x d, length-append r d))
        ∙ enough_fuel g (suc g) (first.0 ++ d) first.1
            (omega (arith, k, l, length-append x d, length-append first.0 d, left_shorter f r v))
            (omega (arith, k, l, length-append x d, length-append first.0 d, left_shorter f r v))
        ∙ sym (
            ap (λ z. handle_events handle (suc g) (z.0 ++ d) z.1)
              (first_split (split_event x) x e r u (λ y w. handle_events handle f y w) split))
  ]
