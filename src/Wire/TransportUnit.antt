-- ===== src/Wire/TransportUnit.antt =====
-- wire/unit.go: transport units, which carry a frame whole or in fragments. `Unit` of the source is
-- `TransportUnit` here. Lengths of slices are below 2 ^ 63, so that the source's sums of a length and
-- a `uint32` cannot wrap.
pub mod Codec
pub mod Split
pub mod Reassembly
mod Examples
use Prim.Native.Nat.{bit_and, bit_or}
use capri_hub.Common.{
  ℕ, zero, suc, ◌+◌, ◌-◌, ◌*◌, ◌/◌, ◌%◌, ◌^◌, ◌≡◌, Bool, true, false, not, ◌&&◌, ◌||◌, Option, none,
  some, List, [], ◌∷◌, ◌++◌, ltb, leb, ◌==◌, if◌then◌else◌, length, take, drop,
}
use capri_hub.Common.Int.{ℤ, pos, ltb_ℤ, pos_part}
use capri_hub.Common.Words.{Bytes}
use capri_hub.Common.Result.{Result, ok, err}

-- `UnitSize`, `UnitCompressed`, `UnitFragment`, `unitHeaderSize`
abbrev pub unit_size : ℕ
unit_size = 32 * 2 ^ 10

abbrev pub unit_compressed : ℕ
unit_compressed = 1

abbrev pub unit_fragment : ℕ
unit_fragment = 2

abbrev pub unit_header_size : ℕ
unit_header_size = 13

pub record TransportUnit : Type 0 where
  pub flags : ℕ
  pub frame_id : ℕ
  pub total : ℕ
  pub offset : ℕ
  pub payload : Bytes

-- The errors that wrap `ErrUnit`, by their message.
pub data UnitError : Type 0 where
  too_short unknown_flags exceeds_total empty_fragment not_complete : UnitError
  above_max_frame completes_open opens_late other_frame flag_changes wrong_offset : UnitError
  overrun too_long : UnitError

-- `binary.BigEndian.PutUint32` and `Uint32`
abbrev pub put_uint32 : ℕ → Bytes
put_uint32 v = v / 2 ^ 24 % 256 ∷ v / 2 ^ 16 % 256 ∷ v / 2 ^ 8 % 256 ∷ v % 256 ∷ []

abbrev pub byte_at : Bytes → ℕ → ℕ
byte_at [] i = 0
byte_at (b ∷ bs) zero = b
byte_at (b ∷ bs) (suc i) = byte_at bs i

abbrev pub uint32_at : Bytes → ℕ → ℕ
uint32_at b i =
    byte_at b i * 2 ^ 24
    + byte_at b (i + 1) * 2 ^ 16
    + byte_at b (i + 2) * 2 ^ 8
    + byte_at b (i + 3)

-- `EncodeUnit`
unfoldable pub encode_unit : TransportUnit → Bytes
encode_unit u =
    u.flags ∷ (put_uint32 u.frame_id ++ (put_uint32 u.total ++ (put_uint32 u.offset ++ u.payload)))

abbrev pub has_flag : ℕ → ℕ → Bool
has_flag flags mask = not (bit_and flags mask == 0)

-- The checks of `DecodeUnit` on the fields. `Flags&^(UnitCompressed|UnitFragment)` keeps the bits of
-- 0xfc.
unfoldable pub check_unit : TransportUnit → Result UnitError TransportUnit
check_unit u =
    if has_flag u.flags 0xfc
    then err unknown_flags
    else if ltb u.total (u.offset + length u.payload)
    then err exceeds_total
    else if has_flag u.flags unit_fragment
    then (if u.total == 0 then err empty_fragment else ok u)
    else if not (u.offset == 0) || not (length u.payload == u.total)
    then err not_complete
    else ok u

-- The header fields, and the payload behind them.
unfoldable pub read_unit : Bytes → TransportUnit
read_unit b = record {
  flags = byte_at b 0;
  frame_id = uint32_at b 1;
  total = uint32_at b 5;
  offset = uint32_at b 9;
  payload = drop unit_header_size b;
}

-- `DecodeUnit`
unfoldable pub decode_unit : Bytes → Result UnitError TransportUnit
decode_unit b = if ltb (length b) unit_header_size then err too_short else check_unit (read_unit b)

-- The loop of `SplitFrame` from `off` on. Each round moves `off` forward, so the length of the
-- payload is fuel enough.
unfoldable pub split_loop : ℕ → Bytes → ℕ → ℕ → ℕ → ℕ → List Bytes
split_loop zero payload flags frame_id size off = []
split_loop (suc fuel) payload flags frame_id size off =
    let end = if ltb size (length payload - off) then off + size else length payload in
    let unit = encode_unit (record {
      flags = bit_or flags unit_fragment;
      frame_id = frame_id;
      total = length payload;
      offset = off;
      payload = take (end - off) (drop off payload);
    }) in
    let rest = split_loop fuel payload flags frame_id size (off + size) in
    if ltb off (length payload) then unit ∷ rest else []

-- `SplitFrame`. `uint32(len(payload))` is the length, which fits once the first check has passed.
unfoldable pub split_frame : Bytes → Bool → ℕ → ℤ → Result UnitError (List Bytes)
split_frame payload compressed frame_id size =
    let size' = if ltb_ℤ size (pos 1) then unit_size else pos_part size in
    let flags = if compressed then bit_or 0 unit_compressed else 0 in
    if ltb (2 ^ 32 - 1) (length payload)
    then err too_long
    else if leb (length payload) size'
    then ok (
        encode_unit (record {
          flags = flags;
          frame_id = frame_id;
          total = length payload;
          offset = 0;
          payload = payload;
        })
        ∷ [])
    else ok (split_loop (length payload) payload flags frame_id size' 0)

pub record Reassembler : Type 0 where
  pub is_open : Bool
  pub frame_id : ℕ
  pub total : ℕ
  pub compressed : Bool
  pub buf : Bytes

-- The zero `Reassembler`, and what `Reset` leaves.
abbrev pub reset : Reassembler
reset = record { is_open = false; frame_id = 0; total = 0; compressed = false; buf = [] }

-- What `Reassembler.Accept` returns without an error.
pub record Progress : Type 0 where
  pub frame : Bytes
  pub compressed : Bool
  pub complete : Bool

abbrev pub same_flag : Bool → Bool → Bool
same_flag true b = b
same_flag false b = not b

-- The end of `Accept`, once a fragment has been added.
unfoldable pub finish : Reassembler → Reassembler × Result UnitError Progress
finish r =
    if ltb (length r.buf) r.total
    then (r, ok (record { frame = []; compressed = r.compressed; complete = false }))
    else if ltb r.total (length r.buf)
    then (r, err overrun)
    else (reset, ok (record { frame = r.buf; compressed = r.compressed; complete = true }))

-- A fragment in `Accept`.
unfoldable pub add_fragment : Reassembler → TransportUnit → Reassembler × Result UnitError Progress
add_fragment r u =
    let comp = has_flag u.flags unit_compressed in
    if not r.is_open
    then (if not (u.offset == 0)
        then (r, err opens_late)
        else finish (record {
          is_open = true;
          frame_id = u.frame_id;
          total = u.total;
          compressed = comp;
          buf = u.payload;
        }))
    else if not (u.frame_id == r.frame_id)
    then (r, err other_frame)
    else if not (same_flag comp r.compressed)
    then (r, err flag_changes)
    else if not (u.offset == length r.buf)
    then (r, err wrong_offset)
    else finish (record r { buf = r.buf ++ u.payload })

-- A unit in `Accept`, once it is decoded. `max_frame` above 0 bounds the total.
unfoldable pub accept_unit :
    Reassembler → TransportUnit → ℤ → Reassembler × Result UnitError Progress
accept_unit r u max_frame =
    if ltb_ℤ (pos 0) max_frame && ltb (pos_part max_frame) u.total
    then (r, err above_max_frame)
    else if not (has_flag u.flags unit_fragment)
    then (if r.is_open && (u.frame_id == r.frame_id) then (r, err completes_open) else (
      r,
      ok (record {
        frame = u.payload;
        compressed = has_flag u.flags unit_compressed;
        complete = true;
      }),
    ))
    else add_fragment r u

-- `Reassembler.Accept`
unfoldable pub accept : Reassembler → Bytes → ℤ → Reassembler × Result UnitError Progress
accept r raw max_frame = elim (decode_unit raw) [
  | err e ↦ (r, err e)
  | ok u ↦ accept_unit r u max_frame
]
