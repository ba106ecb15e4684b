-- ===== src/RingChecker/Answer.antt =====
-- `RingCheckerMulticore::signatures_valid`: its answer does not depend on what the threads do when.
use naza.Common.{ℕ, suc, ◌+◌, ◌*◌, ◌<◌}
use naza.Common.{◌≡◌, refl, sym, ap, ◌∙◌, ◌⊎◌, inl, inr, arith}
use naza.Common.{Bool, true, false, ◌==◌, Bool-cases}
use naza.Common.{none, some, List, [], ◌∷◌, ◌++◌}
use naza.Common.{length, length-append}
use naza.State.Redo.{RedoError}
use naza.RingChecker.{RingSignatureArg, RingChecker, signatures_valid, errors_of, count_result}
use naza.RingChecker.{Step, takes, counts, Reachable, all_pass, no_errors}
use naza.RingChecker.Counted.{current, failing, IsCounted, Reachable-IsCounted}

-- What the threads still have to do: to take each work of the queue, and to count each work taken.
abbrev pub work_left : RingChecker → ℕ
work_left c = 2 * length c.args + length c.running

module _ (check : RingSignatureArg → Bool × Bool) where
  no_failing : (given : List RingSignatureArg) → (failing check given == 0) ≡ all_pass check given
  unfolding errors_of
  no_failing [] = refl
  no_failing (arg ∷ given) = elim (Bool-cases (check arg).0) [
    | inl passes ↦
        rw passes (ap (λ (n : ℕ). n == 0) (zero_plus (failing check given)) ∙ no_failing given)
    | inr fails ↦ rw fails (positive (failing check given))
  ]
    where
      zero_plus : (n : ℕ) → 0 + n ≡ n
      zero_plus n = omega arith

      positive : (n : ℕ) → (1 + n == 0) ≡ false
      positive n = ground arith

  no_errors-length : (errors : List RedoError) → no_errors errors ≡ (length errors == 0)
  no_errors-length [] = refl
  no_errors-length (e ∷ errors) = sym (positive (length errors))
    where
      positive : (n : ℕ) → (suc n == 0) ≡ false
      positive n = ground arith

  length-zero {ℓ} : {A : Type ℓ} (xs : List A) → length xs ≡ 0 → xs ≡ []
  length-zero [] h = refl
  length-zero (x ∷ xs) h = absurd (omega (arith, h))

  answered :
      (given : List RingSignatureArg) (c : RingChecker)
      → IsCounted check given c
      → c.ready_counter ≡ c.total_counter
      → no_errors c.errors ≡ all_pass check given
  answered given c v done =
      let queue = length-zero c.args (omega (arith, v.total, v.ready, done)) in
      let threads =
        length-zero (current c.work_counter c.running) (omega (arith, v.total, v.ready, done)) in
      no_errors-length c.errors
      ∙ ap (λ (n : ℕ). n == 0)
          (omega (arith, v.failed, ap (failing check) queue, ap (failing check) threads))
      ∙ no_failing given

  -- Where something is current in the threads there is a thread that has it.
  running-Step :
      (c : RingChecker) (w : ℕ) (running : List (RingSignatureArg × ℕ))
      → c.running ≡ running
      → 0 < length (current w running)
      → (d : RingChecker) × Step check c d
  running-Step c w [] e pos = absurd (omega (arith, pos))
  running-Step c w ((arg, n) ∷ running) e pos =
      (count_result check c arg n ([] ++ running), counts [] running arg n e)

  queue-Step :
      (c : RingChecker) (args : List RingSignatureArg)
      → c.args ≡ args
      → 0 < length args
      → (d : RingChecker) × Step check c d
  queue-Step c [] e pos = absurd (omega (arith, pos))
  queue-Step c (arg ∷ rest) e pos =
      (record c { args = rest; running = (arg, c.work_counter) ∷ c.running }, takes arg rest e)

  count_result-left :
      (c : RingChecker) (arg : RingSignatureArg) (n : ℕ) (running : List (RingSignatureArg × ℕ))
      → work_left (count_result check c arg n running) ≡ 2 * length c.args + length running
  unfolding count_result
  count_result-left c arg n running = elim (Bool-cases (n == c.work_counter)) [
    | inl same ↦ rw same refl
    | inr stale ↦ rw stale refl
  ]

  -- What a thread does leaves less to do.
  Step-work_left : (c d : RingChecker) → Step check c d → work_left d < work_left c
  Step-work_left c d (takes arg rest e) = omega (arith, ap length e)
  Step-work_left c d (counts before after arg n e) = omega (
    arith,
    count_result-left c arg n (before ++ after),
    ap length e,
    length-append before ((arg, n) ∷ after),
    length-append before after,
  )

  -- Whatever the threads did since the works were given, in whatever order and with works of
  -- earlier blocks in between: either `signatures_valid` answers, and says whether all the
  -- signatures that were given pass, or it waits; then there is something that a thread can do,
  -- and whatever a thread does leaves less to do.
  pub signatures_valid_lem :
      (given : List RingSignatureArg) (c : RingChecker)
      → Reachable check (some given) c
      → (signatures_valid c ≡ some (all_pass check given))
        ⊎ ((signatures_valid c ≡ none)
            × ((d : RingChecker) × Step check c d)
            × ((d : RingChecker) → Step check c d → work_left d < work_left c))
  unfolding signatures_valid
  signatures_valid_lem given c r =
      let v = (Reachable-IsCounted check r).1 in
      elim (Bool-cases (c.ready_counter == c.total_counter)) [
        | inl done ↦ inl (rw done (ap some (answered given c v (ground (arith, done)))))
        | inr waits ↦
            let left : 0 < length c.args + length (current c.work_counter c.running) =
              ground (arith, v.total, v.ready, waits) in
            inr (rw waits (refl, thread left (Bool-cases (length c.args == 0)), Step-work_left c))
      ]
    where
      thread :
          0 < length c.args + length (current c.work_counter c.running)
          → ((length c.args == 0) ≡ true) ⊎ ((length c.args == 0) ≡ false)
          → (d : RingChecker) × Step check c d
      thread left (inl empty) =
          running-Step c c.work_counter c.running refl (ground (arith, left, empty))
      thread left (inr some_left) = queue-Step c c.args refl (ground (arith, some_left))
