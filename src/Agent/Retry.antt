-- ===== src/Agent/Retry.antt =====
-- registerWithRetry: how it ends, and how long it waits.
use router_ui.Base.{
  ℕ, zero, suc, ◌+◌, ◌≤◌, ◌<◌, ◌≡◌, refl, Bool, false, List, [], ◌∷◌, arith, ok, err, length,
  Result-cases, Bool-cases, inl, inr, ap, ◌∙◌,
}
use router_ui.Api.{RegisterResponse}
use router_ui.Agent.{
  Reply, Error, do_register, wait_after, registered, gave_up, retry_from, register_with_retry,
}

unfoldable pub total : List ℕ → ℕ
total [] = 0
total (w ∷ ws) = w + total ws

-- The seconds of the first waits, from `attempt` on.
unfoldable pub waits_from : ℕ → ℕ → List ℕ
waits_from attempt zero = []
waits_from attempt (suc count) = wait_after attempt ∷ waits_from (attempt + 1) count

-- Every attempt from `attempt` on, `count` of them, fails and is followed by a full wait.
abbrev pub AllFail : (ℕ → Reply) → (ℕ → Bool) → ℕ → ℕ → Type 0
AllFail replies stops attempt zero = Unit
AllFail replies stops attempt (suc count) =
    ((e : Error) × (do_register (replies attempt) ≡ err e))
    × (stops attempt ≡ false)
    × AllFail replies stops (attempt + 1) count

retry_from-success :
    (replies : ℕ → Reply) (stops : ℕ → Bool) (resp : RegisterResponse) (attempt count left : ℕ)
    → count < left
    → AllFail replies stops attempt count
    → do_register (replies (attempt + count)) ≡ ok resp
    → retry_from replies stops attempt left ≡ (registered resp, waits_from attempt count)
unfolding retry_from waits_from
retry_from-success replies stops resp attempt count zero lt fail good = absurd (omega arith)
retry_from-success replies stops resp attempt zero (suc left) lt fail good =
    let here : attempt + 0 ≡ attempt = omega arith in
    let now : do_register (replies attempt) ≡ ok resp = rw here at good in rw (now, retry_from)
retry_from-success replies stops resp attempt (suc count) (suc left) lt fail good =
    let later : attempt + suc count ≡ attempt + 1 + count = omega arith in
    let rest =
      retry_from-success replies stops resp (attempt + 1) count left (omega arith) fail.2
        (rw later at good) in
    rw (fail.0.1, retry_from) (rw fail.1 (rw rest))

retry_from-failure :
    (replies : ℕ → Reply) (stops : ℕ → Bool) (attempt left : ℕ)
    → AllFail replies stops attempt left
    → retry_from replies stops attempt left ≡ (gave_up, waits_from attempt left)
unfolding retry_from waits_from
retry_from-failure replies stops attempt zero fail = refl
retry_from-failure replies stops attempt (suc left) fail =
    rw (fail.0.1, retry_from)
      (rw fail.1 (rw (retry_from-failure replies stops (attempt + 1) left fail.2)))

-- After `count` failures, fewer than ten, and the full wait after each, the first success is what is
-- returned.
pub register_with_retry-success :
    (replies : ℕ → Reply) (stops : ℕ → Bool) (count : ℕ) (resp : RegisterResponse)
    → count < 10
    → AllFail replies stops 0 count
    → do_register (replies count) ≡ ok resp
    → register_with_retry replies stops ≡ (registered resp, waits_from 0 count)
unfolding register_with_retry
register_with_retry-success replies stops count resp few fail good =
    retry_from-success replies stops resp 0 count 10 few fail
      (ap (λ (n : ℕ). do_register (replies n)) (omega arith) ∙ good)

-- After ten failures the agent gives up.
pub register_with_retry-gave_up :
    (replies : ℕ → Reply) (stops : ℕ → Bool)
    → AllFail replies stops 0 10
    → register_with_retry replies stops ≡ (gave_up, waits_from 0 10)
unfolding register_with_retry
register_with_retry-gave_up replies stops fail = retry_from-failure replies stops 0 10 fail

retry_from-waits :
    (replies : ℕ → Reply) (stops : ℕ → Bool) (attempt left : ℕ)
    → (length (retry_from replies stops attempt left).1 ≤ left)
      × (total (retry_from replies stops attempt left).1 ≤ total (waits_from attempt left))
unfolding retry_from waits_from total
retry_from-waits replies stops attempt zero = (omega arith, omega arith)
retry_from-waits replies stops attempt (suc left) =
    let (few, short) = retry_from-waits replies stops (attempt + 1) left in
    elim (Result-cases (do_register (replies attempt))) [
      | inl (e, bad) ↦
          rw (bad, retry_from)
            (elim (Bool-cases (stops attempt)) [
              | inl ends ↦ rw ends (omega arith, omega arith)
              | inr goes ↦ rw goes (omega arith, omega arith)
            ])
      | inr (resp, good) ↦ rw (good, retry_from) (omega arith, omega arith)
    ]

-- However the core answers, the loop makes at most ten waits, and they add up to at most 210
-- seconds.
pub register_with_retry-waits :
    (replies : ℕ → Reply) (stops : ℕ → Bool)
    → (length (register_with_retry replies stops).1 ≤ 10)
      × (total (register_with_retry replies stops).1 ≤ 210)
unfolding register_with_retry waits_from wait_after total
register_with_retry-waits replies stops = retry_from-waits replies stops 0 10
