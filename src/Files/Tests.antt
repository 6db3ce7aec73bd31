-- ===== src/Files/Tests.antt =====
-- The pipe of utils.c on a system that takes two bytes at a time, and a copy of a file of four bytes.
use cvos.Prelude.{ℕ, ◌≤◌, ◌≡◌, refl, arith, List, [], ◌∷◌, ◌++◌, none, some}
use cvos.Prelude.{ℤ, pos, neg, take, take_all, drop, length, true, zero, suc, ap, sym, ◌⊎◌}
use cvos.Stream.Send.{Sends}
use cvos.Files.{Calls, Mode, fifo_get, fifo_send, file_copy}
use cvos.Files.{kill_forced}
use cvos.Files.Kill.{Reaps, kill_forced_lem}
use cvos.Prelude.{Bool, false, ◌||◌, is_neg, ◌<◌}
use cvos.Files.Copy.{Moves, file_copy_lem}
use cvos.Files.Pipe.{fifo_send_lem}

abbrev two_at_once : List ℕ → List ℕ → ℤ × List ℕ
two_at_once p k = (pos (length (take 2 p)), k ++ take 2 p)

abbrev pipes : Calls
pipes = record {
  State = List ℕ;
  exists = λ name k. true;
  mkfifo = λ name k. (pos 0, k);
  open_file = λ name mode k. (pos 3, k);
  close = λ fd k. (pos 0, k);
  read = λ fd n k. (pos 0, [], k);
  write = λ fd. two_at_once;
  fstat = λ fd k. (pos 0, 0);
  statfs = λ name k. none;
  kill = λ pid sure k. (pos 0, k);
  wait = λ pid now k. (pos 0, k);
  system = λ cmd k. (pos 0, true, 0, k);
}

two_at_once-Sends : Sends two_at_once (λ k. k)
two_at_once-Sends [] k = (omega arith, refl)
two_at_once-Sends (a ∷ []) k = (omega arith, refl)
two_at_once-Sends (a ∷ b ∷ p) k = (omega arith, refl)

opened : fifo_get pipes (1 ∷ []) Mode.write_only [] ≡ (pos 3, [])
unfolding fifo_get
opened = refl

-- a type of eight bytes and a body of one
abbrev nine : List ℕ
nine = 255 ∷ 255 ∷ 0 ∷ 0 ∷ 0 ∷ 0 ∷ 0 ∷ 0 ∷ 5 ∷ []

fifo_send_lem_example :
    (n : ℕ) × (k' : List ℕ) × (fifo_send pipes (some (1 ∷ [])) (some (nine ++ (6 ∷ []))) 1 []
      ≡ some (pos n, k'))
    × (n ≤ 9)
    × (k' ≡ take n nine)
fifo_send_lem_example =
    fifo_send_lem pipes (λ k. k) (1 ∷ []) nine (6 ∷ []) 1 [] [] (pos 3) opened refl refl
      (omega arith) two_at_once-Sends

-- two files: what is left of the one, and what the other was given; `read` gives three bytes at a time
abbrev two_files : Calls
two_files = record {
  State = List ℕ × List ℕ;
  exists = λ name k. true;
  mkfifo = λ name k. (pos 0, k);
  open_file = λ name mode k. (pos 3, k);
  close = λ fd k. (pos 0, k);
  read = λ fd n k. (pos (length (take 3 k.0)), take 3 k.0, (drop 3 k.0, k.1));
  write = λ fd p k. (pos (length p), (k.0, k.1 ++ p));
  fstat = λ fd k. (pos 0, length k.0);
  statfs = λ name k. none;
  kill = λ pid sure k. (pos 0, k);
  wait = λ pid now k. (pos 0, k);
  system = λ cmd k. (pos 0, true, 0, k);
}

take-drop : (n : ℕ) (xs : List ℕ) → xs ≡ take n xs ++ drop n xs
take-drop zero xs = refl
take-drop (suc n) [] = refl
take-drop (suc n) (x ∷ xs) = ap (λ t. x ∷ t) (take-drop n xs)

two_files-Moves : Moves two_files (pos 3) (pos 3) (λ k. k.0) (λ k. k.1)
two_files-Moves = record {
  size = λ n k. refl;
  next = λ n k. take-drop 3 k.0;
  quiet = λ n k. refl;
  handed = λ p k. ap (λ t. k.1 ++ t) (sym (take_all (length p) p refl));
  kept = λ p k. refl;
}

file_copy_lem_example :
    (ret : ℤ) × (k3 : List ℕ × List ℕ) × (file_copy two_files 5
        (some (1 ∷ []))
        (some (2 ∷ []))
        (5 ∷ 6 ∷ 7 ∷ 8 ∷ [], [])
      ≡ some (ret, k3))
    × ((ret ≡ pos 0) × (k3.1 ≡ 5 ∷ 6 ∷ 7 ∷ 8 ∷ []) ⊎ (ret ≡ neg 5))
file_copy_lem_example =
    file_copy_lem two_files (pos 3) (pos 3) (λ k. k.0) (λ k. k.1) two_files-Moves 5 (1 ∷ [])
      (2 ∷ []) (5 ∷ 6 ∷ 7 ∷ 8 ∷ [], []) (5 ∷ 6 ∷ 7 ∷ 8 ∷ [], []) (5 ∷ 6 ∷ 7 ∷ 8 ∷ [], []) (pos 0)
      refl refl refl refl refl refl (omega arith) (omega arith)

-- a child that only SIGKILL ends: whether SIGKILL was sent, whether a signal is to break a call that waits,
-- and whether the child has ended; where SIGKILL was not sent, a call that waits always fails.
abbrev Child : Type 0
Child = Bool × Bool × Bool

abbrev stubborn_wait : Bool → Child → ℤ × Child
stubborn_wait true k = (pos 0, k)
stubborn_wait false (false, broken, over) = (neg 4, (false, broken, over))
stubborn_wait false (true, true, over) = (neg 4, (true, false, over))
stubborn_wait false (true, false, over) = (pos 9, (true, false, true))

abbrev stubborn : Calls
stubborn = record {
  State = Child;
  exists = λ name k. true;
  mkfifo = λ name k. (pos 0, k);
  open_file = λ name mode k. (pos 3, k);
  close = λ fd k. (pos 0, k);
  read = λ fd n k. (pos 0, [], k);
  write = λ fd p k. (pos 0, k);
  fstat = λ fd k. (pos 0, 0);
  statfs = λ name k. none;
  kill = λ pid sure k. (pos 0, (sure || k.0, k.1, k.2));
  wait = λ pid. stubborn_wait;
  system = λ cmd k. (pos 0, true, 0, k);
}

abbrev pending : Child → ℕ
pending (sure, true, over) = 1
pending (sure, false, over) = 0

stubborn-Reaps : Reaps stubborn (pos 9) (λ k. k.2 ≡ true) (λ k. k.0 ≡ true) pending
stubborn-Reaps = record {
  polled = λ k good over. cc;
  killed = λ k good. refl;
  waited = waited_at;
  signalled = signalled_at;
}
  where
    waited_at :
        (k : Child)
        → k.0 ≡ true
        → is_neg (stubborn_wait false k).0 ≡ false
        → (stubborn_wait false k).1.2 ≡ true
    waited_at (false, broken, over) sure good = cc
    waited_at (true, true, over) sure good = cc
    waited_at (true, false, over) sure good = refl

    signalled_at :
        (k : Child)
        → k.0 ≡ true
        → is_neg (stubborn_wait false k).0 ≡ true
        → ((stubborn_wait false k).1.0 ≡ true) × (pending (stubborn_wait false k).1 < pending k)
    signalled_at (false, broken, over) sure bad = cc
    signalled_at (true, true, over) sure bad = (refl, omega arith)
    signalled_at (true, false, over) sure bad = cc

pending_small : (k : Child) → k.0 ≡ true → pending k < 2
pending_small (sure, true, over) e = omega arith
pending_small (sure, false, over) e = omega arith

kill_forced_lem_example :
    (ret : ℤ) × (k' : Child) × (kill_forced stubborn 2 (pos 9) (false, true, false)
      ≡ some (ret, k'))
    × ((is_neg ret ≡ true) ⊎ (k'.2 ≡ true))
kill_forced_lem_example =
    kill_forced_lem stubborn (pos 9) (λ k. k.2 ≡ true) (λ k. k.0 ≡ true) pending stubborn-Reaps 2
      (false, true, false) refl pending_small
