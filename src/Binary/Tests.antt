-- ===== src/Binary/Tests.antt =====
-- The theorems on the dispatcher at a set with an eight-byte body more than its key and at a quiet set.
use log_memcached.Base.{◌+◌, ◌≤◌, ◌≡◌, refl, true, false}
use log_memcached.Binary.{Request, reading_set_header, setq, dispatch_bin_command}
use log_memcached.Binary.Lengths.{checks_body, dispatch_bin_command-reads}

abbrev storing : Request
storing = record { extlen = 8; keylen = 5; bodylen = 20 }

dispatch_bin_command-reads_example :
    (storing.keylen ≤ 250)
    × (storing.extlen ≡ storing.extlen)
    × (checks_body reading_set_header storing.extlen ≡ true
        → storing.keylen + storing.extlen ≤ storing.bodylen)
unfolding dispatch_bin_command
dispatch_bin_command-reads_example =
    dispatch_bin_command-reads false false false setq storing reading_set_header storing.extlen refl
