-- ===== src/NetioSimple/Laws.antt =====
-- What the simple monitor counts, and when it runs.
use linuxtools.Base.{
  ℕ, ◌+◌, ◌≡◌, ap, ◌∙◌, Bool, true, false, ◌&&◌, not, List, [], ◌∷◌, Option, none, some, arith,
  ◌==◌, if◌then◌else◌,
}
use linuxtools.Str.{Text}
use linuxtools.Netio.Word.{low32, high32, is_negative}
use linuxtools.Netio.Probe.{Context}
use linuxtools.NetioSimple.{
  Data, trace_write_return, trace_read_return, Globals, zero_globals, count_event, Bcc, Started,
  exited, running, start,
}

-- A call that returned: a write or a read, and its context.
abbrev pub Call : Type 0
Call = Bool × Context

unfoldable pub submit : ℕ → Call → List Data
unfolding trace_write_return trace_read_return
submit target (true, ctx) = trace_write_return target ctx
submit target (false, ctx) = trace_read_return target ctx

unfoldable pub count_all : List Data → Globals → Globals
count_all [] g = g
count_all (d ∷ ds) g = count_all ds (count_event d g)

unfoldable pub run : ℕ → List Call → Globals → Globals
run target [] g = g
run target (call ∷ calls) g = run target calls (count_all (submit target call) g)

-- A write or read of the process that moved at least one byte.
abbrev pub moved : ℕ → Bool → Call → ℕ
moved target is_write (w, ctx) =
    if high32 ctx.pid_tgid == target && not (is_negative ctx.rc) && (if is_write then w else not w)
    then low32 ctx.rc
    else 0

pub bytes_of : ℕ → Bool → List Call → ℕ
bytes_of target is_write [] = 0
bytes_of target is_write (call ∷ calls) =
    moved target is_write call + bytes_of target is_write calls

-- The calls that moved at least one byte.
pub number_of : ℕ → Bool → List Call → ℕ
number_of target is_write [] = 0
number_of target is_write (call ∷ calls) =
    (if moved target is_write call == 0 then 0 else 1) + number_of target is_write calls

tally : ℕ → Call → Globals → Globals
tally target call g = record {
  total_write = g.total_write + moved target true call;
  total_read = g.total_read + moved target false call;
  write_count = g.write_count + (if moved target true call == 0 then 0 else 1);
  read_count = g.read_count + (if moved target false call == 0 then 0 else 1);
}

count_all-submit :
    (target : ℕ) (call : Call) (g : Globals)
    → count_all (submit target call) g ≡ tally target call g
unfolding count_all submit count_event tally
count_all-submit target (true, ctx) g = ground arith
count_all-submit target (false, ctx) g = ground arith

run_from :
    (target : ℕ) (calls : List Call) (g : Globals)
    → run target calls g ≡ record {
      total_write = g.total_write + bytes_of target true calls;
      total_read = g.total_read + bytes_of target false calls;
      write_count = g.write_count + number_of target true calls;
      read_count = g.read_count + number_of target false calls;
    }
unfolding run bytes_of number_of
run_from target [] g = ground arith
run_from target (call ∷ calls) g =
    ap (run target calls) (count_all-submit target call g)
    ∙ run_from target calls (tally target call g)
    ∙ unfold tally in ground arith

-- The globals hold the bytes and the number of the writes and reads of the monitored process that
-- moved at least one byte; calls that failed or moved nothing leave no trace.
pub run_lem :
    (target : ℕ) (calls : List Call)
    → run target calls zero_globals ≡ record {
      total_write = bytes_of target true calls;
      total_read = bytes_of target false calls;
      write_count = number_of target true calls;
      read_count = number_of target false calls;
    }
run_lem target calls = run_from target calls zero_globals ∙ ground arith

abbrev pub status_of : Started → Option ℕ
status_of (exited status _) = some status
status_of (running _) = none

abbrev pub is_none {ℓ} : {A : Type ℓ} → Option A → Bool
is_none none = true
is_none (some _) = false

-- The user is root, the process exists, the program loads and both probes attach.
abbrev pub ready : Bcc → ℕ → Option Text → Bool
ready bcc euid comm =
    euid == 0
    && not (is_none comm)
    && is_none bcc.load
    && is_none bcc.attach_write
    && is_none bcc.attach_read

-- The monitor runs exactly when the user is root, the process exists, the program loads and both
-- probes attach; in every other case it exits, with status 1.
pub status_of-start :
    (bcc : Bcc) (pid euid : ℕ) (comm : Option Text)
    → status_of (start bcc pid euid comm) ≡ (if ready bcc euid comm then none else some 1)
unfolding start
status_of-start bcc pid euid comm = ground arith
