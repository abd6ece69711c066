-- ===== src/Gateway/Sse/Chunks.antt =====
-- How a stream is cut into chunks does not matter, whatever is read from its events: the bookkeepers
-- of src/inferrail/gateway/execution.py and anthropic_execution.py.
use inferrail.Common.{
  ℕ, suc, ◌≡◌, refl, sym, ap, ◌∙◌, Bool, true, false, ◌&&◌, List, [], ◌∷◌, ◌++◌, if◌then◌else◌,
  ◌==◌, length, arith,
}
use mathlib.Core.List.{append_assoc}
use inferrail.Common.Sums.{All}
use inferrail.Gateway.Sse.{Bytes, Bookkeeper, replace_crlf, handle_events, feed_by}
use inferrail.Gateway.Sse.Events.{length-append, enough_fuel, left_shorter, events_append}

-- whether the last byte is a carriage return
abbrev pub ends_cr : Bytes → Bool
ends_cr [] = false
ends_cr (b ∷ []) = b == 13
ends_cr (b ∷ c ∷ bs) = ends_cr (c ∷ bs)

replace-append :
    (c d : Bytes) → ends_cr c ≡ false → replace_crlf (c ++ d) ≡ replace_crlf c ++ replace_crlf d
unfolding replace_crlf
replace-append [] d h = refl
replace-append (b ∷ []) d h = ground (arith, h)
replace-append (b ∷ c ∷ bs) d h =
    ap (λ z. if b == 13 && c == 10 then z else b ∷ z) (replace-append (c ∷ bs) d h)
    ∙ if_append (b == 13 && c == 10) b (replace_crlf (c ∷ bs)) (replace_crlf d)
  where
    if_append :
        (t : Bool) (b : ℕ) (x y : Bytes)
        → (if t then x ++ y else b ∷ (x ++ y)) ≡ (if t then x else b ∷ x) ++ y
    if_append true b x y = refl
    if_append false b x y = refl

abbrev of_pair : {U : Type 0} → Bytes × U → Bookkeeper U
of_pair (rest, usage) = record { buffer = rest; usage = usage }

-- the bytes of all chunks
abbrev pub joined : List Bytes → Bytes → Bytes
joined [] d = d
joined (c ∷ cs) d = c ++ joined cs d

module _ {U : Type 0} (handle : U → Bytes → U) where
  abbrev drained : Bytes → U → Bytes × U
  drained b u = handle_events handle (suc (length b)) b u

  feed_by-append :
      (k : Bookkeeper U) (c d : Bytes)
      → ends_cr c ≡ false
      → feed_by handle (feed_by handle k c) d ≡ feed_by handle k (c ++ d)
  unfolding feed_by
  feed_by-append k c d h =
      let x = k.buffer ++ replace_crlf c in
      let y = replace_crlf d in
      let first = handle_events handle (suc (length x)) x k.usage in
      let e : k.buffer ++ replace_crlf (c ++ d) ≡ x ++ y =
        ap (λ z. k.buffer ++ z) (replace-append c d h)
        ∙ sym (append_assoc k.buffer (replace_crlf c) y) in
      let l = left_shorter handle (suc (length x)) x k.usage in
      sym (
        ap (λ z. of_pair (drained z k.usage)) e
        ∙ ap of_pair (
            events_append handle (suc (length x)) (suc (length (x ++ y))) x y k.usage (omega arith)
              (omega arith)
            ∙ enough_fuel handle (suc (length (x ++ y))) (suc (length (first.0 ++ y)))
                (first.0 ++ y) first.1
                (omega (arith, l, length-append x y, length-append first.0 y)) (omega arith)))

  unfoldable pub feed_all : Bookkeeper U → List Bytes → Bookkeeper U
  unfolding feed_by
  feed_all k [] = k
  feed_all k (c ∷ cs) = feed_all (feed_by handle k c) cs

  -- The usage that a stream leaves, and what is left in the buffer, depend on its bytes only and not on
  -- where they are cut into chunks, as long as no chunk but the last ends in a carriage return.
  pub chunks_do_not_matter :
      (k : Bookkeeper U) (cs : List Bytes) (d : Bytes)
      → All (λ c. ends_cr c ≡ false) cs
      → feed_all (feed_all k cs) (d ∷ []) ≡ feed_by handle k (joined cs d)
  unfolding feed_all
  chunks_do_not_matter k [] d h = refl
  chunks_do_not_matter k (c ∷ cs) d h =
      chunks_do_not_matter (feed_by handle k c) cs d h.1 ∙ feed_by-append k c (joined cs d) h.0
