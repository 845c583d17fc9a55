-- ===== src/Server/Progress/Tail.antt =====
-- The logs keep the last lines, and the monitor has the last word.
use graphatlas.Prelude.{
  ℕ, zero, suc, ◌-◌, ◌≤◌, ◌<◌, leb, leb→le, String, List, [], ◌∷◌, ◌++◌, Option, none, some, length,
  drop, length-append, length-drop, ◌≡◌, refl, sym, ◌∙◌, inl, inr, arith, Bool-cases, ap,
}
use mathlib.Core.List.{append_assoc, append-nil}
use graphatlas.Server.Progress.{
  running, done, errored, Fields, exited, wait_failed, JobState, WaitResult, success, failure,
  wait_error, log_tail_cap, stderr_tail_cap, push_capped, new_running, consume_line, Output, out,
  err, Drained, drain_line, drain, finish, take_fields,
}

-- The last `n` elements.
abbrev pub last {ℓ} : {A : Type ℓ} → ℕ → List A → List A
last n l = drop (length l - n) l

module _ {ℓ} {A : Type ℓ} where
  drop-append : (k : ℕ) (a b : List A) → k ≤ length a → drop k (a ++ b) ≡ drop k a ++ b
  drop-append zero a b h = refl
  drop-append (suc k) [] b h = absurd (omega arith)
  drop-append (suc k) (x ∷ a) b h = drop-append k a b (omega arith)

  drop-drop : (k : ℕ) (a : List A) → drop 1 (drop k a) ≡ drop (suc k) a
  drop-drop zero a = refl
  drop-drop (suc k) [] = refl
  drop-drop (suc k) (x ∷ a) = drop-drop k a

  push_capped-last :
      (cap : ℕ) (a : List A) (x : A)
      → 1 ≤ cap
      → push_capped cap (last cap a) x ≡ last cap (a ++ x ∷ [])
  unfolding push_capped
  push_capped-last cap a x h = elim (Bool-cases (leb cap (length (last cap a)))) [
    | inl full ↦
        let e : length (a ++ x ∷ []) - cap ≡ suc (length a - cap) =
          omega
            (arith, length-append a (x ∷ []), length-drop (length a - cap) a, leb→le cap _ full) in
        rw full (
          rw e (
            rw (drop-drop (length a - cap) a) (
              sym (
                drop-append (suc (length a - cap)) a (x ∷ [])
                  (omega (arith, length-drop (length a - cap) a, leb→le cap _ full))))))
    | inr room ↦
        let small : length a < cap = ground (arith, room, length-drop (length a - cap) a) in
        let none_gone : length a - cap ≡ 0 = omega arith in
        let still_none : length (a ++ x ∷ []) - cap ≡ 0 = omega (arith, length-append a (x ∷ [])) in
        rw room (rw still_none (rw none_gone refl))
  ]

-- The lines as they are logged, and the lines of stderr.
abbrev pub logged : (String → String) → List Output → List String
logged label [] = []
logged label (out line ∷ os) = line ∷ logged label os
logged label (err line ∷ os) = label line ∷ logged label os

abbrev pub stderr_lines : List Output → List String
stderr_lines [] = []
stderr_lines (out line ∷ os) = stderr_lines os
stderr_lines (err line ∷ os) = line ∷ stderr_lines os

module _ {F : Type 0} (parse : String → Option (Fields F)) (label : String → String) where
  -- The drainers' invariant, with what was logged and what came from stderr so far.
  record Keeps (seen errs : List String) (d : Drained F) : Type 0 where
    log : d.state.log_tail ≡ last log_tail_cap seen
    buf : d.stderr_buf ≡ last stderr_tail_cap errs

  take_fields-log :
      (v : Option (Fields F)) (st : JobState F) → (take_fields v st).log_tail ≡ st.log_tail
  unfolding take_fields
  take_fields-log none st = refl
  take_fields-log (some v) st = refl

  consume_line-log :
      (line : String) (seen : List String) (st : JobState F)
      → st.log_tail ≡ last log_tail_cap seen
      → (consume_line parse line st).log_tail ≡ last log_tail_cap (seen ++ line ∷ [])
  unfolding consume_line
  consume_line-log line seen st e =
      take_fields-log (parse line)
        (record st { log_tail = push_capped log_tail_cap st.log_tail line })
      ∙ rw e (push_capped-last log_tail_cap seen line (omega arith))

  drain-Keeps :
      (os : List Output) (seen errs : List String) (d : Drained F)
      → Keeps seen errs d
      → Keeps (seen ++ logged label os) (errs ++ stderr_lines os) (drain parse label os d)
  unfolding drain drain_line
  drain-Keeps [] seen errs d k = rw append-nil (rw append-nil k)
  drain-Keeps (out line ∷ os) seen errs d k =
      let next : Keeps (seen ++ line ∷ []) errs (drain_line parse label (out line) d) = record {
        log = consume_line-log line seen d.state k.log;
        buf = k.buf;
      } in
      rw (append_assoc seen (line ∷ []) (logged label os)) at
        (drain-Keeps os (seen ++ line ∷ []) errs (drain_line parse label (out line) d) next)
  drain-Keeps (err line ∷ os) seen errs d k =
      let next : Keeps (seen ++ label line ∷ []) (errs ++ line ∷ [])
          (drain_line parse label (err line) d) =
        record {
          log = rw k.log (push_capped-last log_tail_cap seen (label line) (omega arith));
          buf = rw k.buf (push_capped-last stderr_tail_cap errs line (omega arith));
        } in
      rw (append_assoc errs (line ∷ []) (stderr_lines os)) at (
        rw (append_assoc seen (label line ∷ []) (logged label os)) at (
          drain-Keeps os (seen ++ label line ∷ []) (errs ++ line ∷ [])
            (drain_line parse label (err line) d) next))

  consume_line-status :
      (line : String) (st : JobState F)
      → ((consume_line parse line st).status ≡ st.status)
        × ((consume_line parse line st).error ≡ st.error)
  unfolding consume_line
  consume_line-status line st = cases (parse line) (record st { log_tail = _ })
    where
      cases :
          (v : Option (Fields F)) (st : JobState F)
          → ((take_fields v st).status ≡ st.status) × ((take_fields v st).error ≡ st.error)
      cases none st = (refl, refl)
      cases (some v) st = (refl, refl)

  drain-status :
      (os : List Output) (d : Drained F)
      → ((drain parse label os d).state.status ≡ d.state.status)
        × ((drain parse label os d).state.error ≡ d.state.error)
  unfolding drain drain_line
  drain-status [] d = (refl, refl)
  drain-status (out line ∷ os) d = ground (
    arith,
    drain-status os (drain_line parse label (out line) d),
    consume_line-status line d.state,
  )
  drain-status (err line ∷ os) d = drain-status os (drain_line parse label (err line) d)

  -- A job that starts.
  abbrev pub begun : F → Drained F
  begun zero_percent = record { state = new_running zero_percent; stderr_buf = [] }

  -- How the monitor ends a job, from what the drainers saw.
  abbrev pub Ends : F → WaitResult → List Output → JobState F → Type 0
  Ends hundred success os st = (st.status ≡ done) × (st.percent ≡ hundred) × (st.error ≡ none)
  Ends hundred (failure code) os st =
      (st.status ≡ errored)
      × (st.error ≡ some (exited code (last stderr_tail_cap (stderr_lines os))))
  Ends hundred (wait_error e) os st = (st.status ≡ errored) × (st.error ≡ some (wait_failed e))

  -- In whatever order the lines of stdout and stderr come, the job runs until the monitor ends it:
  -- done at 100 percent after a success, and otherwise in error, with the last 50 lines of stderr
  -- where the exit code was not 0. Its log is the last 200 lines of both, in the order they came.
  pub finish-Ends :
      (zero_percent hundred : F) (elapsed : ℕ) (result : WaitResult) (os : List Output)
      → let d = drain parse label os (begun zero_percent) in
        let st = finish hundred elapsed result d in
        (d.state.status ≡ running)
        × Ends hundred result os st
        × (st.log_tail ≡ last log_tail_cap (logged label os))
        × (st.duration_ms ≡ elapsed)
  unfolding finish new_running
  finish-Ends zero_percent hundred elapsed result os =
      let start : Keeps [] [] (begun zero_percent) = record { log = refl; buf = refl } in
      let k = drain-Keeps os [] [] (begun zero_percent) start in
      let (s, e) = drain-status os (begun zero_percent) in answers result k s e
    where
      d : Drained F
      d = drain parse label os (begun zero_percent)

      answers :
          (result : WaitResult)
          → Keeps (logged label os) (stderr_lines os) d
          → d.state.status ≡ running
          → d.state.error ≡ none
          → (d.state.status ≡ running)
            × Ends hundred result os (finish hundred elapsed result d)
            × ((finish hundred elapsed result d).log_tail ≡ last log_tail_cap (logged label os))
            × ((finish hundred elapsed result d).duration_ms ≡ elapsed)
      answers success k s e = (s, (refl, refl, e), k.log, refl)
      answers (failure code) k s e = (s, (refl, ap (λ b. some (exited code b)) k.buf), k.log, refl)
      answers (wait_error x) k s e = (s, (refl, refl), k.log, refl)
