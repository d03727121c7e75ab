-- ===== src/Gossip/SeqNo.antt =====
-- src/cks_runtime/gossip/seq_no.py: the persisted counter of sequence numbers of a replica.
-- `next` runs under the thread lock and the file lock, so a call is one atomic step here. The JSON
-- file is its parsed content; file paths and the locking itself are not modelled.
pub mod Unique
use cks_runtime.Prelude.{
  ℕ, ◌+◌, max, String, [], ◌∷◌, Bool, true, false, Option, none, some, ◌==◌, string_eq,
  if◌then◌else◌,
}
use cks_runtime.Prelude.Text.{strip}
use cks_runtime.Prelude.Int.{ℤ, pos, negsuc}
use cks_runtime.Dict.{Dict, get_or, put}
use cks_runtime.Json.{Json, Metadata, number}

-- The file: `none` where it is missing, unreadable, or no JSON object. A write to a file system
-- that is not writable is lost.
pub record Disk : Type 0 where
  pub content : Option Metadata
  pub writable : Bool

pub record SeqNoCounter : Type 0 where
  pub replica_id : String
  pub persist : Bool
  pub value : ℕ

-- The comprehension of `_read_all`: it keeps the numbers that are no Booleans.
unfoldable pub numbers : Metadata → Dict String ℕ
numbers [] = []
numbers ((k, number v) ∷ items) = (k, v) ∷ numbers items
numbers ((k, v) ∷ items) = numbers items

unfoldable pub read_all : Disk → Dict String ℕ
unfolding numbers
read_all disk = elim disk.content [ none ↦ [] | some items ↦ numbers items ]

unfoldable pub read_one : Disk → String → ℕ
unfolding read_all
read_one disk replica_id = get_or (read_all disk) replica_id 0

unfoldable pub encode : Dict String ℕ → Metadata
encode [] = []
encode ((k, v) ∷ items) = (k, number v) ∷ encode items

unfoldable pub write_all : Disk → Dict String ℕ → Disk
unfolding encode
write_all disk values =
    if disk.writable then record disk { content = some (encode values) } else disk

-- The constructor; `none` is its `ValueError`.
unfoldable pub init : Disk → String → Bool → ℤ → Option SeqNoCounter
unfolding read_one
init disk replica_id persist (negsuc n) = none
init disk replica_id persist (pos start) =
    if strip replica_id == ""
    then none
    else some (record {
      replica_id = replica_id;
      persist = persist;
      value = max start (if persist then read_one disk replica_id else 0);
    })

unfoldable pub next : SeqNoCounter → Disk → SeqNoCounter × Disk × ℕ
next self disk =
    let all_values = if self.persist then read_all disk else [] in
    let floor =
      if self.persist then max self.value (get_or all_values self.replica_id 0) else self.value in
    let value = floor + 1 in
    (
      record self { value = value },
      (if self.persist then write_all disk (put all_values self.replica_id value) else disk),
      value,
    )
