-- ===== src/ChildProcess.antt =====
-- The end of a child process: `Process::spawn` and `Process::stop` of src/system.hpp.
-- Whether the child runs is asked again and again; the answers are a function of the number of the
-- question.
pub mod Console
use virtual_media.Base.{
  ℕ, zero, suc, ◌+◌, ◌-◌, ◌*◌, min, ◌≡◌, Bool, List, [], ◌∷◌, if◌then◌else◌, ltb, arith, Bool-cases,
  inl, inr, ℤ,
}

pub data Act : Type 0 where
  disconnect terminate on_terminate wait : Act
  on_exit : ℤ → Act

-- `waitCnt` at its start, and the milliseconds of a round.
abbrev pub wait_count : ℕ
wait_count = 20

abbrev pub wait_time : ℕ
wait_time = 100

-- The loop that gives the child a chance: the number of the next question, and the milliseconds.
-- The child is asked about before the count is looked at.
unfoldable pub wait_child : (ℕ → Bool) → ℕ → ℕ → ℕ → ℕ × ℕ
wait_child running zero i time = (suc i, time)
wait_child running (suc left) i time =
    let rest = wait_child running left (suc i) (time + wait_time) in
    if running i then rest else (suc i, time)

-- `stop`: what is done, in order, and the milliseconds.
unfoldable pub stop : (ℕ → Bool) → List Act × ℕ
unfolding wait_child
stop running =
    let (next, time) = wait_child running wait_count 0 0 in
    (disconnect ∷ (if running next then terminate ∷ on_terminate ∷ [] else []), time)

-- The end of the coroutine of `spawn`, once the output is closed.
unfoldable pub reap : (ℕ → Bool) → ℤ → List Act × ℕ
unfolding wait_child
reap running code =
    let (next, time) = wait_child running wait_count 0 0 in
    (
      (if running next then terminate ∷ wait ∷ on_exit code ∷ [] else wait ∷ on_exit code ∷ []),
      time,
    )

wait_child_lem :
    (exit left i time : ℕ)
    → wait_child (λ n. ltb n exit) left i time
      ≡ (suc (i + min (exit - i) left), time + wait_time * min (exit - i) left)
unfolding wait_child
wait_child_lem exit zero i time = ground arith
wait_child_lem exit (suc left) i time = elim (Bool-cases (ltb i exit)) [
  | inl e ↦ rw (e, wait_child) (ground (arith, wait_child_lem exit left (suc i) (time + wait_time)))
  | inr e ↦ rw (e, wait_child) (ground arith)
]

-- A child that runs up to a question, and no longer, is waited for by both for as many rounds of 100
-- milliseconds, two seconds at most, and is terminated exactly if it still runs at the last
-- question; a child that is terminated has its end told by both.
pub stop-reap :
    (exit : ℕ) (code : ℤ)
    → let running : ℕ → Bool = λ n. ltb n exit in
      let forced = ltb 21 exit in
      (stop running ≡ (
        disconnect ∷ (if forced then terminate ∷ on_terminate ∷ [] else []),
        wait_time * min exit wait_count,
      ))
      × (reap running code ≡ (
        (if forced then terminate ∷ wait ∷ on_exit code ∷ [] else wait ∷ on_exit code ∷ []),
        wait_time * min exit wait_count,
      ))
unfolding stop reap
stop-reap exit code = ground (arith, wait_child_lem exit 20 0 0)
