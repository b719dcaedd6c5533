-- ===== src/Exec/Lazy.antt =====
-- The loop over a range of internal/interpreter/interpreter.go, which makes no list.
use jennifer.Exec.Stored.{passed}
use jennifer.Value.{int, list, Value}
use jennifer.Exec.Control.{
  after_pass, for_each_pass, for_each_of, range_of, for_each_passes, range_passes,
}
use jennifer.Ast.{type_int, Pos}
use jennifer.Float64.{FloatOps}
use jennifer.Exec.Ranges.{max_range_elements, ints_from, range_list}
use jennifer.Int64.{sub64, InRange, wrap}
use jennifer.Common.{
  List, arith, negsuc, Bool, true, false, ◌∙◌, ◌||◌, ltb_ℤ, some, ℕ, zero, suc, ℤ, pos, ok, ◌≡◌,
  refl, ap, pos_part, ◌-ℤ◌, ◌≤ℤ◌, ◌+ℤ◌,
}
use jennifer.Exec.Syntax.{Stmt, Block}
use jennifer.Exec.Machine.{M, Flow, ◌>>=◌}

-- Where the wrapped difference of two ends in order is not negative, it is their distance.
wrapped_distance :
    (a z : ℤ)
    → InRange a
    → InRange z
    → a ≤ℤ z
    → ltb_ℤ (sub64 z a) (pos 0) ≡ false
    → pos_part (sub64 z a) ≡ pos_part (z -ℤ a)
unfolding wrap ◌-ℤ◌
wrapped_distance (pos a) (pos z) ha hz o h = ground arith
wrapped_distance (pos a) (negsuc z) ha hz o h = ground arith
wrapped_distance (negsuc a) (pos z) ha hz o h = ground arith
wrapped_distance (negsuc a) (negsuc z) ha hz o h = ground arith

neither : (a b : Bool) → a || b ≡ false → a ≡ false
neither true b h = cc
neither false b h = refl

range_list-distance :
    (lo hi : ℤ) (p : Pos) (w : Value)
    → InRange lo
    → InRange hi
    → lo ≤ℤ hi
    → range_list lo hi p ≡ ok w
    → w ≡ list (some type_int) (ints_from lo (pos_part (hi -ℤ lo)))
unfolding range_list
range_list-distance lo hi p w hl hh o h =
    let (e, k) =
      passed (ltb_ℤ (sub64 hi lo) (pos 0) || ltb_ℤ (pos max_range_elements) (sub64 hi lo)) _ p _
        {a = w} h in
    let d = wrapped_distance lo hi hl hh o (neither (ltb_ℤ (sub64 hi lo) (pos 0)) _ e) in
    let r : w ≡ list (some type_int) (ints_from lo (pos_part (sub64 hi lo))) = cc in
    r ∙ ap (λ c. list (some type_int) (ints_from lo c)) d

module _ (run : Stmt → M Flow) (F : FloatOps) where
  range_passes-for_each_passes :
      (p : Pos) (name : List ℕ) (slot : ℤ) (b : Block) (k : ℕ) (n : ℤ)
      → range_passes run F p name slot b k n
        ≡ for_each_passes run F p name slot type_int b (ints_from n k)
  unfolding range_passes for_each_passes
  range_passes-for_each_passes p name slot b zero n = refl
  range_passes-for_each_passes p name slot b (suc k) n =
      ap (λ m. for_each_pass run F p name slot type_int b (int n) >>= after_pass m)
        (range_passes-for_each_passes p name slot b k (n +ℤ pos 1))

  -- For int64 bounds in order, where the range can be made into a list, the loop over the range does
  -- what the loop over that list does.
  pub range_of-for_each_of :
      (p : Pos) (name : List ℕ) (slot : ℤ) (b : Block) (lo hi : ℤ) (q : Pos) (w : Value)
      → InRange lo
      → InRange hi
      → lo ≤ℤ hi
      → range_list lo hi q ≡ ok w
      → range_of run F p name slot b (lo, hi) ≡ for_each_of run F p name slot b w
  range_of-for_each_of p name slot b lo hi q w hl hh o h =
      let e : w ≡ list (some type_int) (ints_from lo (pos_part (hi -ℤ lo))) =
        range_list-distance lo hi q w hl hh o h in
      rw e (range_passes-for_each_passes p name slot b (pos_part (hi -ℤ lo)) lo)
