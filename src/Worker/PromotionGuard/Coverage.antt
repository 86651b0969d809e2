-- ===== src/Worker/PromotionGuard/Coverage.antt =====
-- The covered time, and the instants that some interval covers.
use claude_code_and_vive_cod.Prelude.{
  ℕ, zero, suc, ◌+◌, ◌-◌, ◌≤◌, ◌<◌, ◌≡◌, refl, ◌∙◌, inl, inr, Bool, true, false, ◌&&◌, ◌||◌, List,
  [], ◌∷◌, map, arith, ltb, leb, if◌then◌else◌, Bool-cases,
}
use claude_code_and_vive_cod.Worker.PromotionGuard.{
  Interval, max, min, before, insert_sorted, sort, clip, merge_into, merge, covered_time,
}

-- The instants below `n` at which `f` holds.
abbrev pub count : (ℕ → Bool) → ℕ → ℕ
count f zero = 0
count f (suc n) = count f n + (if f n then 1 else 0)

abbrev pub inside : ℕ → Interval → Bool
inside t (a, b) = leb a t && ltb t b

abbrev pub covered : List Interval → ℕ → Bool
covered [] t = false
covered (i ∷ is) t = inside t i || covered is t

count_ext : (f g : ℕ → Bool) (n : ℕ) → ((t : ℕ) → f t ≡ g t) → count f n ≡ count g n
count_ext f g zero h = refl
count_ext f g (suc n) h = rw (h n) (ground (arith, count_ext f g n h))

count_disjoint :
    (f g : ℕ → Bool) (n : ℕ)
    → ((t : ℕ) → f t ≡ true → g t ≡ false)
    → count (λ t. f t || g t) n ≡ count f n + count g n
count_disjoint f g zero h = refl
count_disjoint f g (suc n) h = ground (arith, count_disjoint f g n h, h n)

count_none : (n : ℕ) → count (λ t. false) n ≡ 0
count_none zero = refl
count_none (suc n) = ground (arith, count_none n)

count_interval : (x y n : ℕ) → x ≤ y → count (λ t. inside t (x, y)) n ≡ min y n - x
count_interval x y zero h = ground arith
count_interval x y (suc n) h = ground (arith, count_interval x y n h)

-- The intervals start at `x` or later, in order, and end at `n` or earlier.
abbrev pub Ordered : ℕ → ℕ → List Interval → Type 0
Ordered n x [] = Unit
Ordered n x ((a, b) ∷ is) = (x ≤ a) × (b ≤ n) × Ordered n a is

later_start : (n x : ℕ) (is : List Interval) (t : ℕ) → Ordered n x is → covered is t ≡ true → x ≤ t
later_start n x [] t o h = cc
later_start n x ((a, b) ∷ is) t (low, high, o) h = ground (arith, later_start n a is t o)

Ordered-lower : (n x y : ℕ) (is : List Interval) → x ≤ y → Ordered n y is → Ordered n x is
Ordered-lower n x y [] h o = tt
Ordered-lower n x y ((a, b) ∷ is) h (low, high, o) = (omega arith, high, o)

merge_into-count :
    (n x y total : ℕ) (is : List Interval)
    → x < y
    → y ≤ n
    → Ordered n x is
    → merge_into x y total is ≡ total + count (λ t. inside t (x, y) || covered is t) n
unfolding merge_into
merge_into-count n x y total [] h k o =
    rw (count_ext (λ t. inside t (x, y) || false) (λ t. inside t (x, y)) n (λ t. ground arith))
      (rw (count_interval x y n (omega arith)) (ground arith))
merge_into-count n x y total ((a, b) ∷ is) h k (low, high, o) = elim (Bool-cases (leb b a)) [
  | inl empty ↦ rw empty (
      merge_into-count n x y total is h k (Ordered-lower n x a is low o)
      ∙ rw
          (count_ext (λ t. inside t (x, y) || covered is t)
            (λ t. inside t (x, y) || (inside t (a, b) || covered is t)) n (λ t. ground arith))
          refl)
  | inr full ↦ elim (Bool-cases (ltb y a)) [
    | inl gap ↦
        rw (full, gap)
          (merge_into-count n a b (total + (y - x)) is (ground arith) high o
            ∙ (rw
                (count_disjoint (λ t. inside t (x, y)) (λ t. inside t (a, b) || covered is t) n
                  (λ t i. ground (arith, later_start n a is t o)))
                (rw (count_interval x y n (omega arith)) (ground arith))))
    | inr touch ↦
        rw (full, touch)
          (merge_into-count n x (max y b) total is (ground arith) (ground arith)
              (Ordered-lower n x a is low o)
            ∙ rw
                (count_ext (λ t. inside t (x, max y b) || covered is t)
                  (λ t. inside t (x, y) || (inside t (a, b) || covered is t)) n (λ t. ground arith))
                refl)
  ]
]

no_total : (c : ℕ) → 0 + c ≡ c
no_total c = omega arith

merge-count : (n x : ℕ) (is : List Interval) → Ordered n x is → merge is ≡ count (covered is) n
unfolding merge
merge-count n x [] o = ground (arith, count_none n)
merge-count n x ((a, b) ∷ is) (low, high, o) = elim (Bool-cases (leb b a)) [
  | inl empty ↦ rw empty (
      merge-count n a is o
      ∙ count_ext (covered is) (λ t. inside t (a, b) || covered is t) n (λ t. ground arith))
  | inr full ↦ rw full (
      merge_into-count n a b 0 is (ground arith) high o
      ∙ no_total (count (covered ((a, b) ∷ is)) n))
]

-- Sorting keeps what is covered, and orders the starts.
covered-insert_sorted :
    (i : Interval) (js : List Interval) (t : ℕ)
    → covered (insert_sorted i js) t ≡ (inside t i || covered js t)
unfolding insert_sorted
covered-insert_sorted i [] t = refl
covered-insert_sorted i (j ∷ js) t = ground (arith, covered-insert_sorted i js t)

covered-sort : (is : List Interval) (t : ℕ) → covered (sort is) t ≡ covered is t
unfolding sort
covered-sort [] t = refl
covered-sort (i ∷ is) t = ground (arith, covered-insert_sorted i (sort is) t, covered-sort is t)

insert_sorted-Ordered :
    (n x a b : ℕ) (js : List Interval)
    → x ≤ a
    → b ≤ n
    → Ordered n x js
    → Ordered n x (insert_sorted (a, b) js)
unfolding insert_sorted
insert_sorted-Ordered n x a b [] low high o = (low, high, tt)
insert_sorted-Ordered n x a b ((c, d) ∷ js) low high (low', high', o) =
    elim (Bool-cases (before (a, b) (c, d))) [
      | inl first ↦ rw first (low, high, ((ground arith), high', o))
      | inr after ↦ rw after (low', high', insert_sorted-Ordered n c a b js (ground arith) high o)
    ]

-- Every interval ends at `n` or earlier.
abbrev Ends : ℕ → List Interval → Type 0
Ends n [] = Unit
Ends n ((a, b) ∷ is) = (b ≤ n) × Ends n is

sort-Ordered : (n : ℕ) (is : List Interval) → Ends n is → Ordered n 0 (sort is)
unfolding sort
sort-Ordered n [] e = tt
sort-Ordered n ((a, b) ∷ is) (high, e) =
    insert_sorted-Ordered n 0 a b (sort is) (omega arith) high (sort-Ordered n is e)

clip-Ends : (start end : ℕ) (is : List Interval) → Ends end (map (clip start end) is)
clip-Ends start end [] = tt
clip-Ends start end ((a, b) ∷ is) = (ground arith, clip-Ends start end is)

covered-clip :
    (start end : ℕ) (is : List Interval) (t : ℕ)
    → t < end
    → covered (map (clip start end) is) t ≡ (leb start t && covered is t)
covered-clip start end [] t h = ground arith
covered-clip start end ((a, b) ∷ is) t h = ground (arith, covered-clip start end is t h)

count_below : (f g : ℕ → Bool) (n : ℕ) → ((t : ℕ) → t < n → f t ≡ g t) → count f n ≡ count g n
count_below f g zero h = refl
count_below f g (suc n) h =
    rw (h n (omega arith)) (ground (arith, count_below f g n (λ t k. h t (omega arith))))

-- The covered time of a window is the number of the instants from its start up to its end that
-- lie in some interval: overlaps and repeated intervals count once, whatever their order, and
-- what lies outside the window does not count.
pub covered_time-count :
    (is : List Interval) (start end : ℕ)
    → covered_time is start end ≡ count (λ t. leb start t && covered is t) end
unfolding covered_time
covered_time-count is start end =
    let clipped = map (clip start end) is in
    merge-count end 0 (sort clipped) (sort-Ordered end clipped (clip-Ends start end is))
    ∙ count_below (covered (sort clipped)) (λ t. leb start t && covered is t) end
        (λ t h. covered-sort clipped t ∙ covered-clip start end is t h)

count_window : (f : ℕ → Bool) (start n : ℕ) → count (λ t. leb start t && f t) n ≤ n - start
count_window f start zero = omega arith
count_window f start (suc n) = ground (arith, count_window f start n)

pub covered_time-window :
    (is : List Interval) (start end : ℕ) → covered_time is start end ≤ end - start
covered_time-window is start end =
    rw (covered_time-count is start end) (count_window (covered is) start end)
