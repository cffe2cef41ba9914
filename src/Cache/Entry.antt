-- ===== src/Cache/Entry.antt =====
-- What is stored for an issuer is read back until it expires.
use scitokens_cpp.Prelude.{
  ◌≡◌, [], none, some, str, str_eq, if◌then◌else◌, object, Members, find, find_integer, put, ℤ,
  ltb_ℤ,
}
use scitokens_cpp.Cache.{System, read_entry, entry_of}

-- If the parser undoes the serializer on the entry that is stored for a key set, the entry is read
-- as that key set with its time of update while the time is not past its expiry, and is not used
-- after that.
pub read_entry-entry_of :
    (sys : System) (keys : Members) (next_update expires now : ℤ)
    → sys.parse (sys.serialize (entry_of (object keys) next_update expires))
      ≡ ([], entry_of (object keys) next_update expires)
    → read_entry (sys.parse (sys.serialize (entry_of (object keys) next_update expires))) now
      ≡ (if ltb_ℤ expires now then none else some (object keys, next_update))
unfolding read_entry entry_of find_integer find put str_eq str
read_entry-entry_of sys keys next_update expires now round_trip = rw round_trip
