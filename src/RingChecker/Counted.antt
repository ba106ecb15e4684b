-- ===== src/RingChecker/Counted.antt =====
-- The counters of the ring checker: each work that was given is in the queue, in a thread, or counted.
use naza.Common.{ℕ, suc, ◌+◌, ◌≤◌}
use naza.Common.{◌≡◌, refl, sym, ap, ◌∙◌, inl, inr, arith}
use naza.Common.{Bool, true, false, ◌==◌, if◌then◌else◌, Bool-cases, ==_refl}
use naza.Common.{Option, none, some, List, [], ◌∷◌, ◌++◌, All}
use naza.Common.{length, length-append}
use mathlib.Core.Path.{subst}
use naza.RingChecker.{
  RingSignatureArg, RingChecker, start_work, push_arg, cancel_work, errors_of, count_result,
}
use naza.RingChecker.{Step, takes, counts, Reachable, created, started, pushed, cancelled, stepped}

-- The works of the current block in the threads.
abbrev pub current : ℕ → List (RingSignatureArg × ℕ) → List RingSignatureArg
current work_counter [] = []
current work_counter ((arg, n) ∷ running) =
    if n == work_counter then arg ∷ current work_counter running else current work_counter running

pub current-append :
    (w : ℕ) (xs ys : List (RingSignatureArg × ℕ))
    → current w (xs ++ ys) ≡ current w xs ++ current w ys
current-append w [] ys = refl
current-append w ((arg, n) ∷ xs) ys = elim (Bool-cases (n == w)) [
  | inl same ↦ rw same (ap (λ l. arg ∷ l) (current-append w xs ys))
  | inr stale ↦ rw stale (current-append w xs ys)
]

abbrev Recent : ℕ → RingSignatureArg × ℕ → Type 0
Recent work_counter r = r.1 ≤ work_counter

current-stale :
    (w : ℕ) (xs : List (RingSignatureArg × ℕ)) → All (Recent w) xs → current (w + 1) xs ≡ []
current-stale w [] h = refl
current-stale w ((arg, n) ∷ xs) (le, h) =
    let stale : (n == w + 1) ≡ false = ground (arith, le) in rw stale (current-stale w xs h)

Recent-next :
    (w : ℕ) (xs : List (RingSignatureArg × ℕ)) → All (Recent w) xs → All (Recent (w + 1)) xs
Recent-next w [] h = tt
Recent-next w (x ∷ xs) (le, h) = (omega arith, Recent-next w xs h)

Recent-without :
    (w : ℕ) (xs ys : List (RingSignatureArg × ℕ)) (x : RingSignatureArg × ℕ)
    → All (Recent w) (xs ++ x ∷ ys)
    → All (Recent w) (xs ++ ys)
Recent-without w [] ys x h = h.1
Recent-without w (y ∷ xs) ys x (le, h) = (le, Recent-without w xs ys x h)

module _ (check : RingSignatureArg → Bool × Bool) where
  -- How many signatures do not pass.
  abbrev pub failing : List RingSignatureArg → ℕ
  failing [] = 0
  failing (arg ∷ args) = length (errors_of check arg) + failing args

  failing-append : (xs ys : List RingSignatureArg) → failing (xs ++ ys) ≡ failing xs + failing ys
  failing-append [] ys = omega arith
  failing-append (x ∷ xs) ys = omega (arith, failing-append xs ys)

  -- What was given is counted, in the queue or in a thread, and the errors are of what was counted.
  pub record IsCounted (given : List RingSignatureArg) (c : RingChecker) : Type 0 where
    pub total : c.total_counter ≡ length given
    pub ready :
        c.ready_counter + length c.args + length (current c.work_counter c.running) ≡ length given
    pub failed :
        length c.errors + failing c.args + failing (current c.work_counter c.running)
        ≡ failing given

  abbrev pub Counts : Option (List RingSignatureArg) → RingChecker → Type 0
  Counts none c = Unit
  Counts (some given) c = IsCounted given c

  takes-IsCounted :
      (given : List RingSignatureArg) (c : RingChecker) (arg : RingSignatureArg)
      (rest : List RingSignatureArg)
      → c.args ≡ arg ∷ rest
      → IsCounted given c
      → IsCounted given (record c { args = rest; running = (arg, c.work_counter) ∷ c.running })
  takes-IsCounted given c arg rest e v = record {
    total = v.total;
    ready = rw (==_refl c.work_counter) (omega (arith, v.ready, ap length e));
    failed = rw (==_refl c.work_counter) (omega (arith, v.failed, ap failing e));
  }

  -- A work that leaves the threads.
  left-current :
      (w : ℕ) (running before after : List (RingSignatureArg × ℕ)) (arg : RingSignatureArg) (n : ℕ)
      → running ≡ before ++ (arg, n) ∷ after
      → (n == w) ≡ true
      → (length (current w running) ≡ suc (length (current w (before ++ after))))
        × (failing (current w running)
            ≡ failing (current w (before ++ after)) + length (errors_of check arg))
  left-current w running before after arg n e same =
      let mine = current w before in
      let theirs = current w after in
      let split : current w running ≡ mine ++ arg ∷ theirs =
        ap (current w) e
        ∙ current-append w before ((arg, n) ∷ after)
        ∙ ap (λ (b : Bool). mine ++ (if b then arg ∷ theirs else theirs)) same in
      let joined = current-append w before after in
      (
        omega (
          arith,
          ap length split,
          ap length joined,
          length-append mine (arg ∷ theirs),
          length-append mine theirs,
        ),
        omega (
          arith,
          ap failing split,
          ap failing joined,
          failing-append mine (arg ∷ theirs),
          failing-append mine theirs,
        ),
      )

  left-stale :
      (w : ℕ) (running before after : List (RingSignatureArg × ℕ)) (arg : RingSignatureArg) (n : ℕ)
      → running ≡ before ++ (arg, n) ∷ after
      → (n == w) ≡ false
      → current w (before ++ after) ≡ current w running
  left-stale w running before after arg n e stale =
      let mine = current w before in
      let theirs = current w after in
      current-append w before after
      ∙ ap (λ (b : Bool). mine ++ (if b then arg ∷ theirs else theirs)) (sym stale)
      ∙ sym (current-append w before ((arg, n) ∷ after))
      ∙ ap (current w) (sym e)

  counts-IsCounted :
      (given : List RingSignatureArg) (c : RingChecker) (arg : RingSignatureArg) (n : ℕ)
      (before after : List (RingSignatureArg × ℕ))
      → c.running ≡ before ++ (arg, n) ∷ after
      → IsCounted given c
      → IsCounted given (count_result check c arg n (before ++ after))
  unfolding count_result
  counts-IsCounted given c arg n before after e v =
      let w = c.work_counter in
      elim (Bool-cases (n == w)) [
        | inl same ↦
            let (one, bad) = left-current w c.running before after arg n e same in
            rw same (record {
              total = v.total;
              ready = omega (arith, v.ready, one);
              failed = omega (arith, v.failed, bad, length-append c.errors (errors_of check arg));
            })
        | inr stale ↦
            let none_left = left-stale w c.running before after arg n e stale in
            rw stale (record {
              total = v.total;
              ready = omega (arith, v.ready, ap length none_left);
              failed = omega (arith, v.failed, ap failing none_left);
            })
      ]

  push-IsCounted :
      (given : List RingSignatureArg) (c : RingChecker) (arg : RingSignatureArg)
      → IsCounted given c
      → IsCounted (given ++ arg ∷ []) (push_arg c arg)
  unfolding push_arg
  push-IsCounted given c arg v =
      let more = length-append given (arg ∷ []) in
      record {
        total = omega (arith, v.total, more);
        ready = omega (arith, v.ready, more, length-append c.args (arg ∷ []));
        failed =
            omega
              (arith, v.failed, failing-append given (arg ∷ []), failing-append c.args (arg ∷ []));
      }

  count_result-running :
      (c : RingChecker) (arg : RingSignatureArg) (n : ℕ) (running : List (RingSignatureArg × ℕ))
      → ((count_result check c arg n running).running ≡ running)
        × ((count_result check c arg n running).args ≡ c.args)
        × ((count_result check c arg n running).work_counter ≡ c.work_counter)
  unfolding count_result
  count_result-running c arg n running = elim (Bool-cases (n == c.work_counter)) [
    | inl same ↦ rw same (refl, refl, refl)
    | inr stale ↦ rw stale (refl, refl, refl)
  ]

  -- What a thread does keeps the counts.
  Step-IsCounted :
      (given : Option (List RingSignatureArg)) {c d : RingChecker}
      → Step check c d
      → All (Recent c.work_counter) c.running
      → Counts given c
      → All (Recent d.work_counter) d.running × Counts given d
  Step-IsCounted none {c = c} (takes arg rest e) recent v = ((omega arith, recent), tt)
  Step-IsCounted (some given) {c = c} (takes arg rest e) recent v =
      ((omega arith, recent), takes-IsCounted given c arg rest e v)
  Step-IsCounted given {c = c} (counts before after arg n e) recent v =
      let (same, queue, work) = count_result-running c arg n (before ++ after) in
      (
        rw (same, work)
            (Recent-without c.work_counter before after (arg, n)
              (subst (All (Recent c.work_counter)) e recent)),
        kept given v,
      )
    where
      kept :
          (g : Option (List RingSignatureArg))
          → Counts g c
          → Counts g (count_result check c arg n (before ++ after))
      kept none v = tt
      kept (some g) v = counts-IsCounted g c arg n before after e v

  -- In every state the counters tell what was given, what waits and what failed.
  pub Reachable-IsCounted :
      {given : Option (List RingSignatureArg)} {c : RingChecker}
      → Reachable check given c
      → All (Recent c.work_counter) c.running × Counts given c
  unfolding start_work cancel_work push_arg
  Reachable-IsCounted created = (tt, tt)
  Reachable-IsCounted (started {c = c} r) =
      let (recent, v) = Reachable-IsCounted r in
      let fresh = current-stale c.work_counter c.running recent in
      (
        Recent-next c.work_counter c.running recent,
        record {
          total = refl;
          ready = omega (arith, ap length fresh);
          failed = omega (arith, ap failing fresh);
        },
      )
  Reachable-IsCounted (pushed {given = given} {c = c} arg r) =
      let (recent, v) = Reachable-IsCounted r in (recent, push-IsCounted given c arg v)
  Reachable-IsCounted (cancelled {c = c} r) =
      let (recent, v) = Reachable-IsCounted r in (Recent-next c.work_counter c.running recent, tt)
  Reachable-IsCounted (stepped {given = given} r step) =
      let (recent, v) = Reachable-IsCounted r in Step-IsCounted given step recent v
