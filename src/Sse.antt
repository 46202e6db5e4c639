-- ===== src/Sse.antt =====
-- `useNowhereSSE` of web/src/lib/hooks/use-sse.ts: the loop that reads the event stream of a master.
-- The chunks are the texts that the streaming `TextDecoder` gives. Unmounting cannot come between
-- two lines of one chunk, which are read without an `await`, so the tests of `isMountedRef` inside
-- the loop over the lines hold there.
pub mod Chunks
mod Tests
use nowhere_dash.Base.{
  Bool, true, false, not, List, [], ◌∷◌, ◌++◌, Option, none, some, if◌then◌else◌, Text, codes,
  truthy, starts_with, drop, split, trim,
}

-- What the stream's client does: whether a text is JSON, and whether the caller's `onMessage`
-- returns on the value of a text and on a text as a log.
pub record Client : Type 0 where
  pub parses : Text → Bool
  pub takes_value : Text → Bool
  pub takes_log : Text → Bool

pub data Call : Type 0 where
  on_connected on_error : Call
  on_value on_log : Text → Call

-- The calls made so far, while the loop goes on or as an exception leaves it.
pub data Progress : Type 0 where
  went threw : List Call → Progress

-- The loop with its buffer, or after its end.
pub data Loop : Type 0 where
  reading : (buffer : Text) → List Call → Loop
  stopped : List Call → Loop

-- How the request ends.
pub data Response : Type 0 where
  failed not_ok no_body aborted opened : Response

-- `connectToSSE` up to the loop; the flag is `isMountedRef`, and `onConnected` returns.
unfoldable pub start : Bool → Response → Loop
start mounted aborted = stopped []
start mounted opened = reading [] (if mounted then on_connected ∷ [] else [])
start mounted _ = stopped (if mounted then on_error ∷ [] else [])

abbrev pub then_read : Progress → (List Call → Progress) → Progress
then_read (went calls) f = f calls
then_read (threw calls) f = threw calls

-- `lines.pop()`: the lines in front of the last, and the last.
unfoldable pub complete_lines : List Text → List Text
complete_lines [] = []
complete_lines (l ∷ []) = []
complete_lines (l ∷ m ∷ ls) = l ∷ complete_lines (m ∷ ls)

unfoldable pub last_line : List Text → Text
last_line [] = []
last_line (l ∷ []) = l
last_line (l ∷ m ∷ ls) = last_line (m ∷ ls)

-- `line.startsWith("data: ")` and `line.slice(6)`.
unfoldable pub data_of : Text → Option Text
data_of line = if starts_with line (codes "data: ") then some (drop 6 line) else none

-- The `finally` and the `catch` around the loop: an exception that is no abort.
unfoldable pub finish : Text → Progress → Loop
finish buffer (went calls) = reading buffer calls
finish buffer (threw calls) = stopped (calls ++ on_error ∷ [])

-- The component is unmounted: the read is aborted, which is not reported.
unfoldable pub unmount : Loop → Loop
unmount (reading buffer calls) = stopped calls
unmount (stopped calls) = stopped calls

-- `done`: the rest of the buffer is dropped.
unfoldable pub end_stream : Loop → Loop
end_stream (reading buffer calls) = stopped calls
end_stream (stopped calls) = stopped calls

module _ (client : Client) where
  -- The `catch` of the inner `try`.
  unfoldable pub deliver_log : Text → List Call → Progress
  deliver_log text calls =
      if client.takes_log text
      then went (calls ++ on_log text ∷ [])
      else threw (calls ++ on_log text ∷ [])

  -- An exception of `onMessage` on the value leads to a call with the text as a log.
  unfoldable pub deliver : Text → List Call → Progress
  unfolding deliver_log
  deliver text calls =
      if client.parses text
      then if client.takes_value text
        then went (calls ++ on_value text ∷ [])
        else deliver_log text (calls ++ on_value text ∷ [])
      else deliver_log text calls

  unfoldable pub read_data : Option Text → List Call → Progress
  unfolding deliver
  read_data none calls = went calls
  read_data (some text) calls = if truthy (trim text) then deliver text calls else went calls

  unfoldable pub read_line : Text → List Call → Progress
  unfolding read_data
  read_line line calls = read_data (data_of line) calls

  unfoldable pub read_lines : List Text → List Call → Progress
  unfolding read_line
  read_lines [] calls = went calls
  read_lines (line ∷ lines) calls = then_read (read_line line calls) (read_lines lines)

  -- One round of the loop.
  unfoldable pub read_chunk : Text → Loop → Loop
  unfolding read_lines
  read_chunk chunk (stopped calls) = stopped calls
  read_chunk chunk (reading buffer calls) =
      let lines = split 10 (buffer ++ chunk) in
      finish (last_line lines) (read_lines (complete_lines lines) calls)

  unfoldable pub read_chunks : List Text → Loop → Loop
  unfolding read_chunk
  read_chunks [] loop = loop
  read_chunks (chunk ∷ chunks) loop = read_chunks chunks (read_chunk chunk loop)
