-- ===== src/Copy.antt =====
-- k8s/pipe.go and k8s/copy.go: a file is copied from a pod through a pipe that resumes after an error.
pub mod Delivery
pub mod Progress
use cilium_cli.Prelude.{
  ℕ, zero, suc, ◌+◌, ◌≡◌, List, [], ◌∷◌, ◌++◌, Bool, true, false, not, ◌&&◌, if◌then◌else◌, ◌==◌,
  nat_eq, take, drop, ℤ, pos, ltbℤ,
}

-- The command that reads the file, `tail -c+N`: what it writes for a file of these bytes. It counts
-- from 1, and takes 0 for 1.
pub record Tail : Type 0 where
  pub from : ℕ → List ℕ → List ℕ
  pub from_zero : (bytes : List ℕ) → from 0 bytes ≡ bytes
  pub from_suc : (n : ℕ) (bytes : List ℕ) → from (suc n) bytes ≡ drop n bytes

-- `stream` is what the running command has still to write into the pipe.
pub record CopyPipe : Type 0 where
  pub bytes_read : ℕ
  pub retries : ℕ
  pub stream : List ℕ

-- what a read of the pipe meets: so many bytes, the end of the command, or its error
pub data Event : Type 0 where
  received : ℕ → Event
  closed failed : Event

-- what `Read` returns
pub data Answer : Type 0 where
  bytes : List ℕ → Answer
  eof gave_up : Answer

-- where the copy stands: at its end, ended by the error, or under way
pub data Outcome : Type 0 where
  finished dropped : Outcome
  copying : CopyPipe → Outcome

module _ (tail : Tail) (file : List ℕ) (max_tries : ℤ) where
  abbrev pub start_read_from : ℕ → List ℕ
  start_read_from offset = tail.from offset file

  abbrev pub new_pipe : CopyPipe
  new_pipe = record { bytes_read = 0; retries = 0; stream = start_read_from 0 }

  abbrev pub exhausted : CopyPipe → Bool
  exhausted p = not (ltbℤ max_tries (pos 0)) && not (ltbℤ (pos p.retries) max_tries)

  abbrev pub restart : CopyPipe → CopyPipe
  restart p = record p {
    stream =
        if p.bytes_read == 0
        then start_read_from p.bytes_read
        else start_read_from (p.bytes_read + 1);
    retries = p.retries + 1;
  }

  abbrev pub on_failure : Bool → CopyPipe → CopyPipe × Answer
  on_failure true p = (p, gave_up)
  on_failure false p = (restart p, bytes [])

  -- `Read`
  unfoldable pub read : Event → CopyPipe → CopyPipe × Answer
  read (received n) p = (
    record p { bytes_read = p.bytes_read + n; stream = drop n p.stream },
    bytes (take n p.stream),
  )
  read closed p = (p, eof)
  read failed p = on_failure (exhausted p) p

  -- `io.Copy`: what is written to the file, and how the copy ends
  abbrev pub and_so_on : Answer → CopyPipe → (CopyPipe → List ℕ × Outcome) → List ℕ × Outcome
  and_so_on (bytes xs) p rest = let (out, outcome) = rest p in (xs ++ out, outcome)
  and_so_on eof p rest = ([], finished)
  and_so_on gave_up p rest = ([], dropped)

  unfoldable pub copy : List Event → CopyPipe → List ℕ × Outcome
  copy [] p = ([], copying p)
  copy (e ∷ events) p = and_so_on (read e p).1 (read e p).0 (copy events)

  -- `CopyFromPod` appends to the local file.
  abbrev pub copy_from_pod : List Event → List ℕ → List ℕ × Outcome
  copy_from_pod events local = let (out, outcome) = copy events new_pipe in (local ++ out, outcome)
