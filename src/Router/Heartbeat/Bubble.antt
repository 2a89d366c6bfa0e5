-- ===== src/Router/Heartbeat/Bubble.antt =====
-- The outbound peers that are bubbled up, among those that are kept.
use Prim.Native.Nat.{min}
use go_libp2p_pubsub.Prelude.{
  ℕ, zero, suc, ◌+◌, ◌-◌, ◌≤◌, ◌<◌, ◌≡◌, refl, sym, ap, ◌∙◌, Bool, true, List, [], ◌∷◌, ◌++◌, some,
  length, count_of, count_of-append, length-append, get_elem?, take, drop, take-append-drop,
  length-take, Bool-cases, Option-cases, inl, inr, arith, ltb, ltb→lt, ◌==◌, if◌then◌else◌,
}
use go_libp2p_pubsub.Router.Env.{Params}
use go_libp2p_pubsub.Router.Heartbeat.{rotate, bubble, bubble_up}

split_at :
    (i : ℕ) (xs : List ℕ) (p : ℕ) → get_elem? xs i ≡ some p → xs ≡ take i xs ++ p ∷ drop (suc i) xs
split_at i [] p h = absurd (ground (arith, h))
split_at zero (x ∷ xs) p h = ground (arith, h)
split_at (suc i) (x ∷ xs) p h = ap (λ ys. x ∷ ys) (split_at i xs p h)

module _ (t : ℕ → Bool) where
  count_of-rotate : (i : ℕ) (xs : List ℕ) → count_of t (rotate i xs) ≡ count_of t xs
  unfolding rotate
  count_of-rotate i xs = elim (Option-cases (get_elem? xs i)) [
    | inl miss ↦ rw (miss, rotate) refl
    | inr (p, hit) ↦
        rw (hit, rotate)
          (omega (
            arith,
            ap (count_of t) (split_at i xs p hit),
            count_of-append t (take i xs) (p ∷ drop (suc i) xs),
            count_of-append t (take i xs) (drop (suc i) xs),
          ))
  ]

  count_of-bubble :
      (outbound : ℕ → Bool) (rounds i need : ℕ) (xs : List ℕ)
      → count_of t (bubble outbound rounds i need xs) ≡ count_of t xs
  unfolding bubble
  count_of-bubble outbound zero i need xs = refl
  count_of-bubble outbound (suc rounds) i zero xs = refl
  count_of-bubble outbound (suc rounds) i (suc need) xs = elim (Option-cases (get_elem? xs i)) [
    | inl miss ↦ rw (miss, bubble) refl
    | inr (p, hit) ↦ elim (Bool-cases (outbound p)) [
      | inl out ↦
          rw (hit, bubble)
            (rw out
              (count_of-bubble outbound rounds (suc i) need (rotate i xs) ∙ count_of-rotate i xs))
      | inr inner ↦
          rw (hit, bubble) (rw inner (count_of-bubble outbound rounds (suc i) (suc need) xs))
    ]
  ]

  -- Nothing is lost or doubled.
  pub count_of-bubble_up :
      (params : Params) (outbound : ℕ → Bool) (xs : List ℕ)
      → count_of t (bubble_up params outbound xs) ≡ count_of t xs
  unfolding bubble_up
  count_of-bubble_up params outbound xs =
      let have = count_of outbound (take params.d xs) in
      let inside = bubble outbound (params.d - 1) 1 have xs in
      elim (Bool-cases (ltb have params.d_out)) [
        | inl few ↦
            rw (few, bubble_up)
              (count_of-bubble outbound (length xs - params.d) params.d (params.d_out - have) inside
                ∙ count_of-bubble outbound (params.d - 1) 1 have xs)
        | inr enough ↦ rw (enough, bubble_up) refl
      ]

pub length-count_of : (xs : List ℕ) → count_of (λ x. true) xs ≡ length xs
length-count_of [] = refl
length-count_of (x ∷ xs) = omega (arith, length-count_of xs)

append_assoc : (xs ys zs : List ℕ) → (xs ++ ys) ++ zs ≡ xs ++ (ys ++ zs)
append_assoc [] ys zs = refl
append_assoc (x ∷ xs) ys zs = ap (λ us. x ∷ us) (append_assoc xs ys zs)

get_elem?-append : (pre rest : List ℕ) (p : ℕ) → get_elem? (pre ++ p ∷ rest) (length pre) ≡ some p
get_elem?-append [] rest p = refl
get_elem?-append (x ∷ pre) rest p = get_elem?-append pre rest p

take-append :
    (i n : ℕ) (pre rest : List ℕ) → i ≡ length pre + n → take i (pre ++ rest) ≡ pre ++ take n rest
take-append i n [] rest h = ap (λ j. take j rest) (omega (arith, h))
take-append zero n (x ∷ pre) rest h = absurd (omega (arith, h))
take-append (suc i) n (x ∷ pre) rest h =
    ap (λ ys. x ∷ ys) (take-append i n pre rest (omega (arith, h)))

drop-append :
    (i n : ℕ) (pre rest : List ℕ) → i ≡ length pre + n → drop i (pre ++ rest) ≡ drop n rest
drop-append i n [] rest h = ap (λ j. drop j rest) (omega (arith, h))
drop-append zero n (x ∷ pre) rest h = absurd (omega (arith, h))
drop-append (suc i) n (x ∷ pre) rest h = drop-append i n pre rest (omega (arith, h))

take_within : (d : ℕ) (pre rest : List ℕ) → d ≤ length pre → take d (pre ++ rest) ≡ take d pre
take_within zero pre rest h = refl
take_within (suc d) [] rest h = absurd (omega (arith, h))
take_within (suc d) (x ∷ pre) rest h = ap (λ ys. x ∷ ys) (take_within d pre rest (omega (arith, h)))

append-nil : (xs : List ℕ) → xs ++ [] ≡ xs
append-nil [] = refl
append-nil (x ∷ xs) = ap (λ ys. x ∷ ys) (append-nil xs)

rotate-append :
    (i : ℕ) (pre rest : List ℕ) (p : ℕ)
    → i ≡ length pre
    → (get_elem? (pre ++ p ∷ rest) i ≡ some p) × (rotate i (pre ++ p ∷ rest) ≡ p ∷ pre ++ rest)
unfolding rotate
rotate-append i pre rest p h =
    let hit : get_elem? (pre ++ p ∷ rest) i ≡ some p = rw h (get_elem?-append pre rest p) in
    (
      hit,
      rw (hit, rotate)
          (rw
            (
              take-append i 0 pre (p ∷ rest) (omega (arith, h)),
              drop-append (suc i) 1 pre (p ∷ rest) (omega (arith, h)),
              append-nil pre,
            )
            refl),
    )

pub count_of-take-drop :
    (t : ℕ → Bool) (d : ℕ) (xs : List ℕ)
    → count_of t xs ≡ count_of t (take d xs) + count_of t (drop d xs)
count_of-take-drop t d xs =
    omega
      (arith, ap (count_of t) (take-append-drop d xs), count_of-append t (take d xs) (drop d xs))

module _ (outbound : ℕ → Bool) where
  -- The outbound peers come first.
  abbrev packed : List ℕ → Bool
  packed [] = true
  packed (x ∷ xs) = if outbound x then packed xs else count_of outbound xs == 0

  packed-append :
      (xs ys : List ℕ)
      → packed xs ≡ true
      → (count_of outbound ys == 0) ≡ true
      → packed (xs ++ ys) ≡ true
  packed-append [] [] h inner = refl
  packed-append [] (y ∷ ys) h inner = ground (arith, inner)
  packed-append (x ∷ xs) ys h inner =
      ground (arith, h, inner, packed-append xs ys, count_of-append outbound xs ys)

  count_of-take-packed :
      (d : ℕ) (xs : List ℕ)
      → packed xs ≡ true
      → d ≤ length xs
      → count_of outbound (take d xs) ≡ min d (count_of outbound xs)
  count_of-take-packed zero xs h short = omega arith
  count_of-take-packed (suc d) [] h short = omega arith
  count_of-take-packed (suc d) (x ∷ xs) h short =
      ground (arith, h, count_of-take-packed d xs, count_of-take-drop outbound d xs, short)

  -- The loop over the selection ends with its outbound peers in front.
  bubble_inside :
      (rounds i need n : ℕ) (pre rest : List ℕ)
      → i ≡ length pre
      → n ≡ i + rounds
      → rounds ≤ length rest
      → packed pre ≡ true
      → count_of outbound (take rounds rest) ≤ need
      → (packed (take n (bubble outbound rounds i need (pre ++ rest))) ≡ true)
        × (count_of outbound (take n (bubble outbound rounds i need (pre ++ rest)))
            ≡ count_of outbound pre + count_of outbound (take rounds rest))
        × (length (bubble outbound rounds i need (pre ++ rest)) ≡ length pre + length rest)
  unfolding bubble
  bubble_inside zero i need n pre rest at total short h few =
      rw (take-append n 0 pre rest (omega (arith, at, total)), append-nil pre)
        (h, omega arith, length-append pre rest)
  bubble_inside (suc rounds) i zero n pre rest at total short h few =
      rw (take-append n (suc rounds) pre rest (omega (arith, at, total))) (
        packed-append pre (take (suc rounds) rest) h (ground (arith, few)),
        count_of-append outbound pre (take (suc rounds) rest),
        length-append pre rest,
      )
  bubble_inside (suc rounds) i (suc need) n pre [] at total short h few =
      absurd (omega (arith, short))
  bubble_inside (suc rounds) i (suc need) n pre (p ∷ rest) at total short h few =
      let (hit, moved) = rotate-append i pre rest p at in
      elim (Bool-cases (outbound p)) [
        | inl out ↦
            let (a, b, c) =
              bubble_inside rounds (suc i) need n (p ∷ pre) rest (omega (arith, at))
                (omega (arith, total)) (omega (arith, short)) (ground (arith, out, h))
                (ground (arith, out, few)) in
            rw (hit, bubble) (rw (out, moved) (a, ground (arith, b, out), ground (arith, c)))
        | inr inner ↦
            let (a, b, c) =
              bubble_inside rounds (suc i) (suc need) n (pre ++ p ∷ []) rest
                (omega (arith, at, length-append pre (p ∷ []))) (omega (arith, total))
                (omega (arith, short)) (packed-append pre (p ∷ []) h (ground (arith, inner)))
                (ground (arith, inner, few)) in
            let regroup : pre ++ p ∷ rest ≡ (pre ++ p ∷ []) ++ rest =
              sym (append_assoc pre (p ∷ []) rest) in
            rw (hit, bubble)
              (rw (inner, regroup)
                (
                  a,
                  ground (arith, b, inner, count_of-append outbound pre (p ∷ [])),
                  ground (arith, c, length-append pre (p ∷ [])),
                ))
      ]

  -- The loop past the selection fills its front with outbound peers, as far as it needs and there are.
  bubble_outside :
      (rounds i need d : ℕ) (pre rest : List ℕ)
      → i ≡ length pre
      → rounds ≡ length rest
      → d ≤ length pre
      → packed pre ≡ true
      → count_of outbound (take d (bubble outbound rounds i need (pre ++ rest)))
        ≡ min d (count_of outbound pre + min need (count_of outbound rest))
  unfolding bubble
  bubble_outside zero i need d pre [] at short keeps h =
      rw (append-nil pre) (omega (arith, count_of-take-packed d pre h keeps))
  bubble_outside zero i need d pre (p ∷ rest) at short keeps h = absurd (omega (arith, short))
  bubble_outside (suc rounds) i zero d pre rest at short keeps h =
      rw (take_within d pre rest keeps) (omega (arith, count_of-take-packed d pre h keeps))
  bubble_outside (suc rounds) i (suc need) d pre [] at short keeps h = absurd (omega (arith, short))
  bubble_outside (suc rounds) i (suc need) d pre (p ∷ rest) at short keeps h =
      let (hit, moved) = rotate-append i pre rest p at in
      let regroup : pre ++ p ∷ rest ≡ (pre ++ p ∷ []) ++ rest =
        sym (append_assoc pre (p ∷ []) rest) in
      elim (Bool-cases (outbound p)) [
        | inl out ↦
            rw (hit, bubble)
              (rw (out, moved)
                (ground (
                  arith,
                  out,
                  bubble_outside rounds (suc i) need d (p ∷ pre) rest (omega (arith, at))
                      (omega (arith, short)) (omega (arith, keeps)) (ground (arith, out, h)),
                )))
        | inr inner ↦
            rw (hit, bubble)
              (rw (inner, regroup)
                (ground (
                  arith,
                  inner,
                  count_of-append outbound pre (p ∷ []),
                  bubble_outside rounds (suc i) (suc need) d (pre ++ p ∷ []) rest
                      (omega (arith, at, length-append pre (p ∷ []))) (omega (arith, short))
                      (omega (arith, keeps, length-append pre (p ∷ [])))
                      (packed-append pre (p ∷ []) h (ground (arith, inner))),
                )))
      ]

  bubble_up_inner :
      (params : Params) (x : ℕ) (xs : List ℕ)
      → 0 < params.d
      → params.d ≤ suc (length xs)
      → ltb (count_of outbound (take params.d (x ∷ xs))) params.d_out ≡ true
      → count_of outbound (take params.d (bubble_up params outbound (x ∷ xs)))
        ≡ min params.d (min params.d_out (count_of outbound (x ∷ xs)))
  unfolding bubble_up
  bubble_up_inner params x xs pos fits few =
      let have = count_of outbound (take params.d (x ∷ xs)) in
      let same : take params.d (x ∷ xs) ≡ x ∷ take (params.d - 1) xs =
        take-append params.d (params.d - 1) (x ∷ []) xs (omega (arith, pos)) in
      let r = bubble outbound (params.d - 1) 1 have (x ∷ xs) in
      let (front, kept, size) =
        bubble_inside (params.d - 1) 1 have params.d (x ∷ []) xs (omega arith) (omega (arith, pos))
          (omega (arith, fits)) (ground arith) (omega (arith, ap (count_of outbound) same)) in
      let parts : take params.d r ++ drop params.d r ≡ r = take-append-drop params.d r in
      let long : length (take params.d r) ≡ params.d =
        omega (arith, length-take params.d r, size, fits) in
      let rest : length (drop params.d r) ≡ suc (length xs) - params.d =
        omega
          (arith, long, size, ap length parts, length-append (take params.d r) (drop params.d r)) in
      let out =
        bubble_outside (suc (length xs) - params.d) params.d (params.d_out - have) params.d
          (take params.d r) (drop params.d r) (sym long) (sym rest) (omega (arith, long)) front in
      rw (few, bubble_up)
        (rw (← parts) (
          omega (
            arith,
            out,
            kept,
            ap (count_of outbound) same,
            count_of-take-drop outbound params.d r,
            count_of-bubble outbound outbound (params.d - 1) 1 have (x ∷ xs),
            ltb→lt have params.d_out few,
          )))

  -- Of a list with at least `d` peers, those kept have as many outbound ones as `d_out` asks for, or
  -- as there are.
  pub bubble_up-outbound :
      (params : Params) (xs : List ℕ)
      → 0 < params.d
      → params.d ≤ length xs
      → params.d_out ≤ params.d
      → min params.d_out (count_of outbound xs)
        ≤ count_of outbound (take params.d (bubble_up params outbound xs))
  unfolding bubble_up
  bubble_up-outbound params [] pos fits room = absurd (omega (arith, pos, fits))
  bubble_up-outbound params (x ∷ xs) pos fits room =
      elim (Bool-cases (ltb (count_of outbound (take params.d (x ∷ xs))) params.d_out)) [
        | inl few ↦ omega (arith, bubble_up_inner params x xs pos fits few, room)
        | inr enough ↦ rw (enough, bubble_up) (ground (arith, enough))
      ]
