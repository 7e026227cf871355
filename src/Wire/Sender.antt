-- ===== src/Wire/Sender.antt =====
-- wire/sender.go: the sender of one direction's reliable frames.
-- The log is a list, oldest entry first. The byte count is a Go `int`, kept as its 64-bit pattern.
pub mod Log
pub mod Ack
pub mod Elide
mod Examples
use capri_hub.Common.{
  ℕ, zero, suc, ◌≡◌, Bool, true, false, not, Option, none, some, List, [], ◌∷◌, ◌++◌, ltb, leb,
  ◌==◌, if◌then◌else◌, length, get_elem?,
}
use capri_hub.Common.Int.{ℤ, pos, is_neg, pos_part}
use capri_hub.Common.Words.{Bytes, add64, sub64}

pub record Entry : Type 0 where
  pub seq : ℕ
  pub payload : Bytes

pub record Sender : Type 0 where
  pub next : ℕ
  pub acked : ℕ
  pub log : List Entry
  pub bytes : ℕ

-- `NewSender`
unfoldable pub new_sender : ℕ → Sender
new_sender acked = record { next = acked; acked = acked; log = []; bytes = 0 }

-- the private method `append`
unfoldable pub append_entry : Sender → ℕ → Bytes → Sender
append_entry s seq payload = record s {
  next = seq;
  log = s.log ++ (record { seq = seq; payload = payload } ∷ []);
  bytes = add64 s.bytes (length payload);
}

-- `Append`, with the seq that it returns
unfoldable pub append : Sender → Bytes → Sender × ℕ
unfolding append_entry
append s payload = let seq = add64 s.next 1 in (append_entry s seq payload, seq)

pub data SendError : Type 0 where
  unassignable wrong_seq : SendError

-- `AppendAt`: the baseline is set before the seq is compared.
unfoldable pub append_at : Sender → ℕ → Bytes → Sender × Option SendError
unfolding append_entry
append_at s seq payload =
    let based = if s.next == 0 then record s { next = sub64 seq 1 } else s in
    if seq == 0
    then (s, some unassignable)
    else if not (seq == add64 based.next 1)
    then (based, some wrong_seq)
    else (append_entry based seq payload, none)

-- The loop of `Ack`: what stays of the log, and the byte count.
unfoldable pub drop_covered : ℕ → List Entry → ℕ → List Entry × ℕ
drop_covered n [] bytes = ([], bytes)
drop_covered n (e ∷ es) bytes =
    let rest = drop_covered n es (sub64 bytes (length e.payload)) in
    if leb e.seq n then rest else (e ∷ es, bytes)

-- `Ack`
unfoldable pub ack : Sender → ℕ → Sender
ack s n =
    let n' = if ltb s.next n then s.next else n in
    let (log, bytes) = drop_covered n' s.log s.bytes in
    if leb n' s.acked then s else record s { acked = n'; log = log; bytes = bytes }

-- What a later entry of the log is found to be: its index counts the entry before it.
abbrev pub behind : Entry → Option (ℕ × ℕ × List Entry) → Option (ℕ × ℕ × List Entry)
behind e none = none
behind e (some (i, old, log)) = some (suc i, old, e ∷ log)

-- The loop of `ElideFrom` from index `start` on: the index of the entry, the length of its old
-- payload, and the log with the new one.
unfoldable pub elide_loop : ℕ → List Entry → ℕ → Bytes → Option (ℕ × ℕ × List Entry)
elide_loop start [] seq new = none
elide_loop (suc start) (e ∷ es) seq new = behind e (elide_loop start es seq new)
elide_loop zero (e ∷ es) seq new =
    let rest = behind e (elide_loop zero es seq new) in
    if e.seq == seq then some (0, length e.payload, record e { payload = new } ∷ es) else rest

-- What `ElideFrom` does with an entry that the loop found.
abbrev pub write_back : Sender → Bytes → Option (ℕ × ℕ × List Entry) → Sender × Option ℕ
write_back s new none = (s, none)
write_back s new (some (i, old, log)) =
    (record s { log = log; bytes = sub64 (add64 s.bytes (length new)) old }, some i)

-- `ElideFrom`, with the index that it returns; `none` is the error.
unfoldable pub elide_from : Sender → ℤ → ℕ → Bytes → Sender × Option ℕ
elide_from s start seq new =
    write_back s new (elide_loop (if is_neg start then 0 else pos_part start) s.log seq new)

-- `Elide`; `false` is the error.
unfoldable pub elide : Sender → ℕ → Bytes → Sender × Bool
unfolding elide_from
elide s seq new =
    let (s', i) = elide_from s (pos 0) seq new in
    elim i [ none ↦ (s', false) | some _ ↦ (s', true) ]

-- `EntryAt`
unfoldable pub entry_at : Sender → ℤ → Option Entry
entry_at s i = if is_neg i then none else get_elem? s.log (pos_part i)

unfoldable pub find_entry : List Entry → ℕ → Option Entry
find_entry [] seq = none
find_entry (e ∷ es) seq = if e.seq == seq then some e else find_entry es seq

-- `Entry`
unfoldable pub entry : Sender → ℕ → Option Entry
unfolding find_entry
entry s seq = find_entry s.log seq

-- `Entries`
abbrev pub entries : Sender → List Entry
entries s = s.log

-- `Len`
abbrev pub unacked : Sender → ℕ
unacked s = length s.log
