-- ===== src/LogRing/Recent.antt =====
-- The ring holds the most recent lines, and a writer loses no text but blank lines.
use andler.Base.{
  ℕ, zero, suc, ◌-◌, ◌≤◌, ◌≡◌, refl, ap, sym, ◌∙◌, false, List, [], ◌∷◌, ◌++◌, length,
  length-append, ltb, drop, ◌==◌, arith, if◌then◌else◌, Bool-cases, inl, inr,
}
use mathlib.Core.List.{append_assoc, append-nil}
use andler.LogRing.{Line, LogRing, new_ring, pop_front, push, ring_capacity}

unfoldable pub push_all : LogRing → List Line → LogRing
unfolding push
push_all ring [] = ring
push_all ring (line ∷ lines) = push_all (push ring line.0 line.1) lines

-- The last lines of a list, `ring_capacity` of them where there are as many.
abbrev pub recent : List Line → List Line
recent lines = drop (length lines - ring_capacity) lines

drop-append : (n : ℕ) (xs ys : List Line) → n ≤ length xs → drop n (xs ++ ys) ≡ drop n xs ++ ys
drop-append zero xs ys h = refl
drop-append (suc n) [] ys h = absurd (omega arith)
drop-append (suc n) (x ∷ xs) ys h = drop-append n xs ys (omega arith)

length-drop : (n : ℕ) (xs : List Line) → length (drop n xs) ≡ length xs - n
length-drop zero xs = omega arith
length-drop (suc n) [] = omega arith
length-drop (suc n) (x ∷ xs) = omega (arith, length-drop n xs)

pop_front-drop : (n : ℕ) (xs : List Line) → pop_front (drop n xs) ≡ drop (suc n) xs
pop_front-drop zero [] = refl
pop_front-drop zero (x ∷ xs) = refl
pop_front-drop (suc n) [] = refl
pop_front-drop (suc n) (x ∷ xs) = pop_front-drop n xs

push_kept :
    (n : ℕ) (xs : List Line) (line : Line)
    → length xs ≡ n
    → (if length (drop (n - ring_capacity) xs) == ring_capacity
          then pop_front (drop (n - ring_capacity) xs)
          else drop (n - ring_capacity) xs)
        ++ line ∷ []
      ≡ drop (suc n - ring_capacity) (xs ++ line ∷ [])
push_kept n xs line count = elim (Bool-cases (ltb n ring_capacity)) [
  | inl room ↦
      let none_out : n - ring_capacity ≡ 0 = ground arith in
      let none_next : suc n - ring_capacity ≡ 0 = ground arith in
      let not_full : (length xs == ring_capacity) ≡ false = ground arith in
      rw (none_out, none_next, not_full) refl
  | inr full ↦
      let size = length-drop (n - ring_capacity) xs in
      let filled : length (drop (n - ring_capacity) xs) ≡ ring_capacity = ground arith in
      let next : suc n - ring_capacity ≡ suc (n - ring_capacity) = ground arith in
      rw (filled, next)
        (ap (λ kept. kept ++ line ∷ []) (pop_front-drop (n - ring_capacity) xs)
          ∙ sym (drop-append (suc (n - ring_capacity)) xs (line ∷ []) (ground arith)))
]

push-recent :
    (ring : LogRing) (xs : List Line) (line : Line)
    → ring.buf ≡ recent xs
    → (push ring line.0 line.1).buf ≡ recent (xs ++ line ∷ [])
unfolding push
push-recent ring xs line h =
    ap (λ (b : List Line). (if length b == ring_capacity then pop_front b else b) ++ line ∷ []) h
    ∙ push_kept (length xs) xs line refl
    ∙ ap (λ n. drop (n - ring_capacity) (xs ++ line ∷ []))
        (omega (arith, length-append xs (line ∷ [])))

push_all-recent_from :
    (ring : LogRing) (xs lines : List Line)
    → ring.buf ≡ recent xs
    → (push_all ring lines).buf ≡ recent (xs ++ lines)
unfolding push_all
push_all-recent_from ring xs [] h = h ∙ ap recent (sym (append-nil xs))
push_all-recent_from ring xs (line ∷ lines) h =
    push_all-recent_from (push ring line.0 line.1) (xs ++ line ∷ []) lines
      (push-recent ring xs line h)
    ∙ ap recent (append_assoc xs (line ∷ []) lines)

-- After any number of lines the ring holds the last 4096 of them in the order in which they came,
-- or all of them if there are no more.
pub push_all-recent : (lines : List Line) → (push_all new_ring lines).buf ≡ recent lines
push_all-recent lines = push_all-recent_from new_ring [] lines refl
