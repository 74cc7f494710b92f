-- ===== src/Traffic.antt =====
-- ebpf/test_traffic.py: a loop that fetches one of three addresses in each round.
pub mod Laws
use linuxtools.Base.{ℕ, suc, ◌+◌, ◌%◌, Bool, List, [], ◌∷◌, ◌++◌, if◌then◌else◌, get_or}
use linuxtools.Str.{Text, codes}
use linuxtools.Str.Number.{decimal}

abbrev pub urls : List Text
urls =
    codes "http://example.com" ∷ codes "http://httpbin.org/get" ∷ codes "http://www.google.com" ∷ []

-- `urls[count % len(urls)]`
unfoldable pub url_of : ℕ → Text
url_of count = get_or urls (count % 3) []

-- What a request does: it answers with a number of bytes, raises an Exception, or a
-- KeyboardInterrupt comes while it runs.
pub data Answer : Type 0 where
  fetched : ℕ → Answer
  failed : Text → Answer
  interrupted : Answer

-- The counter, what was printed, and the addresses that were asked, the last one first.
pub record Loop : Type 0 where
  pub count : ℕ
  pub out : Text
  pub asked : List Text

-- After a round: the next one, the `break`, or a KeyboardInterrupt that nothing catches.
pub data Round : Type 0 where
  again : Loop → Round
  stopped : Loop → Round
  raised : Loop → Round

abbrev pub say : Text → Loop → Loop
say s l = record l { out = l.out ++ s }

-- `print(f"[{count+1}] Fetching {url}...", end=" ")`, and the request.
unfoldable pub ask : Loop → Loop
ask l = record {
  count = l.count;
  out =
      l.out
      ++ (codes "["
          ++ (decimal (l.count + 1) ++ (codes "] Fetching " ++ (url_of l.count ++ codes "... "))));
  asked = url_of l.count ∷ l.asked;
}

abbrev pub goodbye : Text
goodbye = codes "\n\nStopped by user\n"

-- The body of the loop. `broken` tells that a KeyboardInterrupt comes in the pause of the round: the
-- pause in the `try` block is caught, that in the `except` clause is not.
unfoldable pub round : Answer → Bool → Loop → Round
round (fetched n) broken l =
    let done : Loop = record (say (codes "OK (" ++ (decimal n ++ codes " bytes)\n")) (ask l)) {
      count = l.count + 1;
    } in
    if broken then stopped (say goodbye done) else again done
round (failed e) broken l =
    let noted = say (codes "Error: " ++ (e ++ codes "\n")) (ask l) in
    if broken then raised noted else again noted
round interrupted broken l = stopped (say goodbye (ask l))

-- What is printed before the loop.
unfoldable pub banner : ℕ → Text
banner pid =
    codes "Test script PID: "
    ++ (decimal pid
        ++ (codes
              "\nThis script will make HTTP requests every 5 seconds\nMonitor with: sudo python3 netio_monitor.py "
            ++ (decimal pid ++ codes "\n\nPress Ctrl+C to stop\n\n")))

unfoldable pub start : ℕ → Loop
start pid = record { count = 0; out = banner pid; asked = [] }

-- The loop on the answers and the pauses of the rounds, one after the other.
unfoldable pub run : List (Answer × Bool) → Loop → Round
run [] l = again l
run ((a, broken) ∷ rest) l = elim (round a broken l) [
  | again m ↦ run rest m
  | stopped m ↦ stopped m
  | raised m ↦ raised m
]
