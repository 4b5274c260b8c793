-- ===== src/Compression/Kept.antt =====
-- What the sliding window keeps.
use thumbelina.Prelude.{
  ℕ, suc, zero, ◌+◌, ◌-◌, ◌≤◌, ◌<◌, Bool, ◌≡◌, refl, sym, ap, ◌∙◌, List, [], ◌∷◌, ◌++◌, ◌⊎◌, inl,
  inr, length, take, drop, take-drop, length-append, append_assoc, ltb, ◌==◌, if_known, arith,
}
use thumbelina.Compression.Messages.{Message, estimate_messages_tokens}
use thumbelina.Compression.Units.{
  group_atomic_units, flatten_units, leading_system_unit_count, flatten-group_atomic_units,
}
use thumbelina.Compression.Window.{
  low_target, drop_oldest, dropped_of, head_units, tail_units, compress,
}

flatten-append :
    (us vs : List (List Message)) → flatten_units (us ++ vs) ≡ flatten_units us ++ flatten_units vs
unfolding flatten_units
flatten-append [] vs = refl
flatten-append (u ∷ us) vs =
    ap (◌++◌ u) (flatten-append us vs) ∙ sym (append_assoc u (flatten_units us) (flatten_units vs))

tokens-append :
    (wide : ℕ → Bool) (ms ns : List Message)
    → estimate_messages_tokens wide (ms ++ ns)
      ≡ estimate_messages_tokens wide ms + estimate_messages_tokens wide ns
unfolding estimate_messages_tokens
tokens-append wide [] ns = omega arith
tokens-append wide (m ∷ ms) ns = omega (arith, tokens-append wide ms ns)

abbrev unit_tokens : (ℕ → Bool) → List (List Message) → ℕ
unit_tokens wide us = estimate_messages_tokens wide (flatten_units us)

unit_tokens-cons :
    (wide : ℕ → Bool) (u : List Message) (us : List (List Message))
    → unit_tokens wide (u ∷ us) ≡ estimate_messages_tokens wide u + unit_tokens wide us
unfolding flatten_units
unit_tokens-cons wide u us = tokens-append wide u (flatten_units us)

-- What one run of the loop over units of that total settles: the last unit stays, the count of
-- messages is that of the dropped units, and the loop goes on only while the total is too large.
Sweeps : (ℕ → Bool) → ℕ → ℕ → List (List Message) → ℕ × ℕ → Type 0
Sweeps wide target total us d =
    (length (flatten_units (take (d.0) us)) ≡ d.1)
    × (d.0 ≤ length us - 1)
    × (((total ≤ target + unit_tokens wide (take (d.0) us)) ⊎ (length us ≤ suc (d.0))))
    × ((k : ℕ) → k < d.0 → target + unit_tokens wide (take k us) < total)

Sweeps-on :
    (wide : ℕ → Bool) (target total : ℕ) (u v : List Message) (us : List (List Message)) (d : ℕ × ℕ)
    → Sweeps wide target (total - estimate_messages_tokens wide u) (v ∷ us) d
    → target < total
    → Sweeps wide target total (u ∷ v ∷ us) (suc (d.0), length u + d.1)
unfolding flatten_units Sweeps estimate_messages_tokens
Sweeps-on wide target total u v us (n, c) (hc, hn, ht, hk) h = (
  length-append u (flatten_units (take n (v ∷ us))) ∙ ap (◌+◌ (length u)) hc,
  omega (arith, hn),
  ground (arith, ht, unit_tokens-cons wide u (take n (v ∷ us))),
  before,
)
  where
    before : (k : ℕ) → k < suc n → target + unit_tokens wide (take k (u ∷ v ∷ us)) < total
    before zero g = omega (arith, h)
    before (suc k) g =
        omega (arith, hk k (omega (arith, g)), unit_tokens-cons wide u (take k (v ∷ us)))

Sweeps-stop :
    (wide : ℕ → Bool) (target total : ℕ) (us : List (List Message))
    → total ≤ target
    → Sweeps wide target total us (0, 0)
unfolding flatten_units Sweeps
Sweeps-stop wide target total us h =
    (refl, omega arith, inl (omega (arith, h)), λ k h. ground (arith, h))

drop_oldest-Sweeps :
    (wide : ℕ → Bool) (target total : ℕ) (us : List (List Message))
    → Sweeps wide target total us (drop_oldest wide target total us)
unfolding drop_oldest flatten_units Sweeps
drop_oldest-Sweeps wide target total [] =
    (refl, omega arith, inr (omega arith), λ k h. ground (arith, h))
drop_oldest-Sweeps wide target total (u ∷ []) =
    (refl, omega arith, inr (omega arith), λ k h. ground (arith, h))
drop_oldest-Sweeps wide target total (u ∷ v ∷ us) =
    let spent = total - estimate_messages_tokens wide u in
    let rest = drop_oldest wide target spent (v ∷ us) in
    if_known (λ (d : ℕ × ℕ). Sweeps wide target total (u ∷ v ∷ us) d) (ltb target total)
      (λ h.
        Sweeps-on wide target total u v us rest (drop_oldest-Sweeps wide target spent (v ∷ us))
          (ground (arith, h)))
      (λ h. Sweeps-stop wide target total (u ∷ v ∷ us) (ground (arith, h)))

nil_of_length : {A : Type 0} (xs : List A) → length xs ≡ 0 → xs ≡ []
nil_of_length [] h = refl
nil_of_length (x ∷ xs) h = ground (arith, h)

flatten-head-tail :
    (messages : List Message)
    → flatten_units (head_units messages) ++ flatten_units (tail_units messages) ≡ messages
flatten-head-tail messages =
    let units = group_atomic_units messages in
    sym (flatten-append (head_units messages) (tail_units messages))
    ∙ ap flatten_units (take-drop (leading_system_unit_count units) units)
    ∙ flatten-group_atomic_units messages

abbrev kept_after : List Message → ℕ → List Message
kept_after messages n = flatten_units (head_units messages ++ drop n (tail_units messages))

abbrev gone_after : List Message → ℕ → List Message
gone_after messages n = flatten_units (take n (tail_units messages))

cut_at :
    (messages : List Message) (n : ℕ)
    → messages
      ≡ flatten_units (head_units messages)
        ++ (gone_after messages n ++ flatten_units (drop n (tail_units messages)))
cut_at messages n =
    sym (flatten-head-tail messages)
    ∙ ap (λ us. flatten_units (head_units messages) ++ us)
        (sym (ap flatten_units (take-drop n (tail_units messages)))
          ∙ flatten-append (take n (tail_units messages)) (drop n (tail_units messages)))

kept_of_none_gone :
    (messages : List Message) (n : ℕ)
    → gone_after messages n ≡ []
    → messages ≡ kept_after messages n
kept_of_none_gone messages n h =
    cut_at messages n
    ∙ ap
        (λ gone.
          flatten_units (head_units messages)
          ++ (gone ++ flatten_units (drop n (tail_units messages))))
        h
    ∙ sym (flatten-append (head_units messages) (drop n (tail_units messages)))

tokens_at :
    (wide : ℕ → Bool) (messages : List Message) (n : ℕ)
    → estimate_messages_tokens wide messages
      ≡ estimate_messages_tokens wide (kept_after messages n)
        + estimate_messages_tokens wide (gone_after messages n)
tokens_at wide messages n =
    let head = flatten_units (head_units messages) in
    let gone = gone_after messages n in
    let last = flatten_units (drop n (tail_units messages)) in
    omega (
      arith,
      ap (estimate_messages_tokens wide) (cut_at messages n),
      ap (estimate_messages_tokens wide)
          (flatten-append (head_units messages) (drop n (tail_units messages))),
      tokens-append wide head (gone ++ last),
      tokens-append wide gone last,
      tokens-append wide head last,
    )

dropped_of-Sweeps :
    (wide : ℕ → Bool) (messages : List Message) (window : ℕ)
    → Sweeps wide
        (low_target window)
        (estimate_messages_tokens wide messages)
        (tail_units messages)
        (dropped_of wide messages window)
unfolding dropped_of
dropped_of-Sweeps wide messages window =
    drop_oldest-Sweeps wide (low_target window) (estimate_messages_tokens wide messages)
      (tail_units messages)

compress-kept :
    (wide : ℕ → Bool) (messages : List Message) (window : ℕ)
    → compress wide messages window ≡ kept_after messages ((dropped_of wide messages window).0)
unfolding compress Sweeps
compress-kept wide messages window =
    let d = dropped_of wide messages window in
    let (hc, hn, ht, hk) = dropped_of-Sweeps wide messages window in
    if_known (λ ms. ms ≡ kept_after messages (d.0)) (d.1 == 0)
      (λ h.
        kept_of_none_gone messages (d.0)
          (nil_of_length (gone_after messages (d.0)) (hc ∙ ground (arith, h))))
      (λ h. refl)

-- For some number n of units: the result is the leading system units and all but the n oldest of
-- the units after them, in their order; the last unit stays; the estimate of the result is at most
-- the target or no other unit than the last is left after the head; and dropping fewer than n
-- units leaves an estimate above the target.
pub compress_lem :
    (wide : ℕ → Bool) (messages : List Message) (window : ℕ)
    → (n : ℕ) × (compress wide messages window
        ≡ flatten_units (head_units messages ++ drop n (tail_units messages)))
      × (n ≤ length (tail_units messages) - 1)
      × ((estimate_messages_tokens wide (compress wide messages window) ≤ low_target window)
          ⊎ (length (tail_units messages) ≤ suc n))
      × ((k : ℕ)
          → k < n
          → low_target window
            < estimate_messages_tokens wide
                (flatten_units (head_units messages ++ drop k (tail_units messages))))
unfolding Sweeps
compress_lem wide messages window =
    let d = dropped_of wide messages window in
    let n = d.0 in
    let (hc, hn, ht, hk) = dropped_of-Sweeps wide messages window in
    let kept = compress-kept wide messages window in
    (
      n,
      kept,
      hn,
      ground (arith, ht, ap (estimate_messages_tokens wide) kept, tokens_at wide messages n),
      λ k h. omega (arith, hk k h, tokens_at wide messages k),
    )
