-- ===== src/Pipe/Tests.antt =====
-- Runs of `pipeWrite` and `pipeRead`, kernel/fs/pipe.c, on small inputs.
use mirai_os.Prelude.{
  arith, ap, ℕ, ◌+◌, ◌≡◌, ◌≢◌, ◌≤◌, Bool, true, false, Option, none, some, List, [], ◌∷◌, ◌++◌,
  length, refl,
}
use mirai_os.Pipe.{
  pipe_buf, Writer, Reader, read_loop, write_step, read_step, System, Step, by_writer, by_reader,
  begin, Reach, here, later,
}
use mirai_os.Pipe.Keep.{unsent, unread}
use mirai_os.Pipe.Fifo.{Reach-fifo, Reach-live}

-- One access of the writer, where it has one.
abbrev write_next : {start : System} → (t : System) × Reach start t → (t : System) × Reach start t
write_next {start} (s, r) = go (write_step s.writer s.pipe) refl
  where
    go : (x : Option (Writer × _)) → write_step s.writer s.pipe ≡ x → (t : System) × Reach start t
    go none e = (s, r)
    go (some (w, p)) e = (_, later r (by_writer w p e))

abbrev read_next : {start : System} → (t : System) × Reach start t → (t : System) × Reach start t
read_next {start} (s, r) = go (read_step s.reader s.pipe) refl
  where
    go : (x : Option (Reader × _)) → read_step s.reader s.pipe ≡ x → (t : System) × Reach start t
    go none e = (s, r)
    go (some (rd, p)) e = (_, later r (by_reader rd p e))

-- The writer moves where the schedule has `true`, the reader where it has `false`.
abbrev drive :
    {start : System} → List Bool → (t : System) × Reach start t → (t : System) × Reach start t
drive [] run = run
drive (true ∷ l) run = drive l (write_next run)
drive (false ∷ l) run = drive l (read_next run)

abbrev start : System
start = begin (65 ∷ 66 ∷ []) 1 (λ i. 0)

-- The reader tries first and waits; it takes the byte before the writer has moved its index.
abbrev run : (t : System) × Reach start t
run = drive (false ∷ true ∷ true ∷ true ∷ false ∷ false ∷ true ∷ false ∷ false ∷ []) (start, here)

Reach-fifo_example :
    (ring : List ℕ) × ((65 ∷ 66 ∷ []) ≡ run.0.pipe.got ++ (ring ++ unsent run.0.writer))
    × (length ring ≤ pipe_buf)
    × (length run.0.pipe.got + unread run.0.reader ≡ 1)
Reach-fifo_example = Reach-fifo (65 ∷ 66 ∷ []) 1 (λ i. 0) run.0 run.1

start_waits : start.reader ≢ read_loop 0
start_waits e = omega (arith, ap unread e)

Reach-live_example : (t : System) × Step start t
Reach-live_example = Reach-live (65 ∷ 66 ∷ []) 1 (λ i. 0) start here (omega arith) start_waits

-- The reader has given its byte back; the writer has not begun with the second byte.
run_done : run.0.pipe.bytes_free ≡ 4096
unfolding write_step read_step
run_done = refl
