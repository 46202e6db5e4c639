-- ===== src/Setup/Finish.antt =====
-- Theorems on the countdown after the last step (web/src/pages/setup.tsx).
use nowhere_dash.Base.{ℕ, zero, suc, ◌+◌, ◌-◌, ◌≤◌, ◌≡◌, sym, ap, ◌∙◌, false, some, ◌==◌, arith}
use nowhere_dash.Setup.Wizard.{Wizard, count_from, tick, second, seconds, end_submit, done}

second_counts :
    (n : ℕ) (w : Wizard)
    → w.countdown ≡ some (suc n)
    → ((second w).countdown ≡ some n) × ((second w).left ≡ w.left)
unfolding second count_from tick
second_counts n w h = ground arith

seconds_count :
    (n m : ℕ) (w : Wizard)
    → w.countdown ≡ some (n + m)
    → w.left ≡ false
    → ((seconds n w).countdown ≡ some m) × ((seconds n w).left ≡ false)
unfolding seconds
seconds_count zero m w h l = (h ∙ ap some (omega arith), l)
seconds_count (suc n) m w h l =
    let (c, k) = second_counts (n + m) w (h ∙ ap some (omega arith)) in
    seconds_count n m (second w) c (k ∙ l)

-- After the server has initialized the database, a page that has not left stays for five seconds,
-- and then leaves for the login.
pub finish_leaves :
    (n : ℕ) (w : Wizard)
    → n ≤ 5
    → w.left ≡ false
    → (count_from (seconds n (end_submit done w)).countdown (seconds n (end_submit done w))).left
      ≡ (n == 5)
unfolding count_from end_submit
finish_leaves n w h l =
    let v = seconds n (end_submit done w) in
    let (c, k) = seconds_count n (5 - n) (end_submit done w) (ap some (left_over n h)) l in
    ap (λ o. (count_from o v).left) c ∙ at_zero n (5 - n) v k (sym (left_over n h))
  where
    left_over : (n : ℕ) → n ≤ 5 → 5 ≡ n + (5 - n)
    left_over n h = omega arith

    at_zero :
        (n m : ℕ) (v : Wizard)
        → v.left ≡ false
        → n + m ≡ 5
        → (count_from (some m) v).left ≡ (n == 5)
    at_zero n m v l h = ground arith
