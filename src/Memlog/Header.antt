-- ===== src/Memlog/Header.antt =====
-- `item_data` of memcached.h, the header and the variable part of an item in the log.
use log_memcached.Base.{ℕ, ◌+◌, Bool, false, ◌||◌, List, [], if◌then◌else◌}

-- `it_data_flags`, a bit each; the names are those of the ITEM_ constants.
pub record Flags : Type 0 where
  pub linked : Bool
  pub cas : Bool
  pub slabbed : Bool
  pub stored : Bool
  pub cycle : Bool
  pub dirty : Bool
  pub corrupted : Bool
  pub deleted : Bool

-- The four parts that follow the header are what ITEM_get_cas, ITEM_key, ITEM_suffix and ITEM_data
-- read; an `int` or `uint8_t` field is the number that it holds.
pub record Item : Type 0 where
  pub exptime : ℕ
  pub nbytes : ℕ
  pub nsuffix : ℕ
  pub it_data_flags : Flags
  pub nkey : ℕ
  pub cas_id : ℕ
  pub key : List ℕ
  pub suffix : List ℕ
  pub value : List ℕ

abbrev pub no_flags : Flags
no_flags = record {
  linked = false;
  cas = false;
  slabbed = false;
  stored = false;
  cycle = false;
  dirty = false;
  corrupted = false;
  deleted = false;
}

-- zeroed memory
abbrev pub blank : Item
blank = record {
  exptime = 0;
  nbytes = 0;
  nsuffix = 0;
  it_data_flags = no_flags;
  nkey = 0;
  cas_id = 0;
  key = [];
  suffix = [];
  value = [];
}

-- `sizeof(item_data)`: two 4-byte fields and three bytes, padded for the 8-byte union behind them
abbrev pub sizeof_item_data : ℕ
sizeof_item_data = 16

abbrev pub sizeof_cas : ℕ
sizeof_cas = 8

-- ITEM_get_cas
unfoldable pub get_cas : Item → ℕ
get_cas it = if it.it_data_flags.cas then it.cas_id else 0

-- ITEM_set_cas
unfoldable pub set_cas : Item → ℕ → Item
set_cas it v = if it.it_data_flags.cas then record it { cas_id = v } else it

-- ITEM_ntotal
unfoldable pub ntotal : Item → ℕ
ntotal it =
    let f = it.it_data_flags in
    sizeof_item_data
    + it.nkey
    + 1
    + it.nsuffix
    + it.nbytes
    + (if f.cas || f.deleted || f.corrupted || f.cycle then sizeof_cas else 0)
