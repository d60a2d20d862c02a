-- ===== src/Controller/Delays.antt =====
-- The interval behind a failed check, by the time since the failure.
use azdo_kube_operator.Base.{
  ℕ, zero, suc, ◌+◌, ◌-◌, ◌*◌, ◌/◌, ◌%◌, ◌^◌, ◌≤◌, ◌<◌, ◌≡◌, refl, ap, ◌∙◌, pos, ◌≤ℤ◌, int64,
  int64_small, arith, ltb, if◌then◌else◌,
}
use native.Mathlib.Nat.{pow-le-pow_right, pow-suc}
use azdo_kube_operator.Devops.{minute}
use azdo_kube_operator.Controller.{interval_of, interval_since}

-- Five minutes are the most, also where the multiplication wraps.
pub interval_since_at_most : (elapsed : ℕ) → interval_since elapsed ≤ℤ pos (5 * minute)
unfolding interval_since
interval_since_at_most elapsed = ground arith

abbrev pub at_most_five_minutes : ℕ → ℕ
at_most_five_minutes n = if ltb (5 * minute) n then 5 * minute else n

held : (p : ℕ) → p ≤ 134_217_728 → interval_of p ≡ pos (at_most_five_minutes (minute * p))
unfolding interval_of
held p h = rw (int64_small (minute * p) (omega arith)) (ground arith)

-- For 140 minutes the interval doubles every five minutes, from one minute up to five.
pub interval_since_doubles :
    (k r : ℕ)
    → k < 28
    → r < 5 * minute
    → interval_since (k * (5 * minute) + r) ≡ pos (at_most_five_minutes (minute * 2 ^ k))
unfolding interval_since
interval_since_doubles k r h s =
    let e : (k * (5 * minute) + r) / (5 * minute) ≡ k = omega arith in
    let small : 2 ^ k ≤ 134_217_728 =
      pow-le-pow_right {n = 2} (omega arith) {j = 27} (omega arith) in
    rw e (held (2 ^ k) small)

pow_split : (n : ℕ) → 2 ^ (n + 53) ≡ 2 ^ n * 9_007_199_254_740_992
pow_split zero = refl
pow_split (suc n) =
    let e = pow_split n in
    let f : 2 ^ suc (n + 53) ≡ 2 ^ (n + 53) * 2 = pow-suc 2 (n + 53) in
    let g : 2 ^ suc n ≡ 2 ^ n * 2 = pow-suc 2 n in
    let s : suc n + 53 ≡ suc (n + 53) = omega arith in ap (λ m. 2 ^ m) s ∙ (f ∙ omega arith)

vanished : (p : ℕ) → int64 (minute * (p * 9_007_199_254_740_992)) ≡ pos 0
unfolding int64
vanished p = let e : (minute * (p * 9_007_199_254_740_992)) % 2 ^ 64 ≡ 0 = omega arith in rw e refl

interval_of-vanished : (p : ℕ) → interval_of (p * 9_007_199_254_740_992) ≡ pos 0
unfolding interval_of
interval_of-vanished p = rw (vanished p) refl

-- From 265 minutes on the multiplication wraps to nothing, and the interval is 0.
pub interval_since_vanishes :
    (elapsed : ℕ) → 53 * (5 * minute) ≤ elapsed → interval_since elapsed ≡ pos 0
unfolding interval_since
interval_since_vanishes elapsed h =
    let n = elapsed / (5 * minute) - 53 in
    let e : elapsed / (5 * minute) ≡ n + 53 = omega arith in
    ap (λ k. interval_of (2 ^ k)) e ∙ (ap interval_of (pow_split n) ∙ interval_of-vanished (2 ^ n))
