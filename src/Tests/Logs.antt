-- ===== src/Tests/Logs.antt =====
-- Log lines on their way.
use expense_management_syste.Base.{
  ℕ, ◌+◌, ◌≤◌, ◌<◌, true, none, some, List, [], ◌∷◌, ◌++◌, codes, ◌≡◌, refl, ◌⊎◌, arith, length,
  Text,
}
use expense_management_syste.Logs.{
  LogRow, Platform, Info, Json, Message, row_of, msg_max_chars, Sender, PulsarLogsTransport,
  LogEvent, Response, started, batch_rows, batch_bytes, take_batch, take_rows,
}
use expense_management_syste.Logs.Limits.{IsCapped, row_of-IsCapped}
use expense_management_syste.Logs.Batch.{bytes_of, take_batch-bounds}
use expense_management_syste.Logs.Books.{Inv}
use expense_management_syste.Logs.Shipping.{play, play-Inv}
use expense_management_syste.Logs.Drained.{
  all_accepted, IsDrained, accepted_rows, all_accepted-IsDrained,
}

abbrev warning : LogRow
warning = record {
  level = codes "warn";
  message = codes "slow";
  ts = codes "2026-01-31T00:00:00.000Z";
  request_id = none;
  host = codes "api";
  dedup_key = codes "k";
  metadata = none;
}

-- Two rows do not fit into one request.
abbrev heavy : LogRow → ℕ
heavy row = 150000

abbrev two_lines : List LogRow
two_lines = warning ∷ warning ∷ []

one_by_one : take_batch heavy two_lines ≡ (warning ∷ [], warning ∷ [])
unfolding take_batch take_rows
one_by_one = refl

take_batch-bounds_example :
    ((take_batch heavy two_lines).0 ++ (take_batch heavy two_lines).1 ≡ two_lines)
    × (1 ≤ length (take_batch heavy two_lines).0)
    × (length (take_batch heavy two_lines).0 ≤ batch_rows)
    × ((length (take_batch heavy two_lines).0 ≡ 1)
        ⊎ (128 + bytes_of heavy (take_batch heavy two_lines).0 ≤ batch_bytes))
    × (((take_batch heavy two_lines).1 ≡ [])
        ⊎ (length (take_batch heavy two_lines).0 ≡ batch_rows)
        ⊎ ((next : LogRow) × (later : List LogRow) × ((take_batch heavy two_lines).1 ≡ next ∷ later)
            × (batch_bytes < 128 + bytes_of heavy (take_batch heavy two_lines).0 + heavy next)))
take_batch-bounds_example = take_batch-bounds heavy two_lines refl

-- A line is refused for now, and sent again.
abbrev short_outage : List (ℕ × LogEvent)
short_outage =
    (1, LogEvent.logs warning)
    ∷ (2, LogEvent.ticks)
    ∷ (3, LogEvent.answers (Response.status 503))
    ∷ (4, LogEvent.logs warning)
    ∷ (6000, LogEvent.ticks)
    ∷ []

play-Inv_example :
    let (logged, settled, s) = play heavy short_outage ([], [], started) in Inv logged settled s
play-Inv_example = play-Inv heavy short_outage

-- One line is on its way, and one waits.
abbrev sender : PulsarLogsTransport
sender = record started {
  queue = warning ∷ [];
  flushing = true;
  in_flight = some (Sender.drain, warning ∷ []);
}

all_accepted-IsDrained_example :
    IsDrained heavy (all_accepted heavy (1 ∷ 2 ∷ []) sender)
    × (accepted_rows heavy (1 ∷ 2 ∷ []) sender ≡ warning ∷ warning ∷ [])
all_accepted-IsDrained_example = all_accepted-IsDrained heavy (1 ∷ 2 ∷ []) sender refl (omega arith)

abbrev platform : Platform Text
platform = record {
  byte_length = length;
  stringify = λ entries. Json.json (codes "{}");
  stringify_row = λ row. row.message;
  iso_date = λ s. none;
  hostname = codes "api";
}

abbrev info : Info Text
info = record {
  level = none;
  message = Message.text (codes "slow");
  timestamp = none;
  request_id = none;
  entries = (codes "level", codes "warn") ∷ (codes "userId", codes "7") ∷ [];
}

row_of-IsCapped_example :
    (length (row_of platform (codes "now") (codes "k") info).message ≤ msg_max_chars)
    × IsCapped platform (row_of platform (codes "now") (codes "k") info).metadata
row_of-IsCapped_example = row_of-IsCapped platform (codes "now") (codes "k") info
