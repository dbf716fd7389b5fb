-- ===== src/Core/Cursor.antt =====
-- The pure parts of a listing: `_encode_cursor`, `_decode_cursor`, and the entries of a page of
-- `list_prefix` (src/wenchang/core.py).
pub mod Pages
use wenchang.Base.{Bool, true, false, Option, none, some, List, [], ◌∷◌, if◌then◌else◌}
use wenchang.Base.Result.{Result, ok, err, ◌>>=◌}
use wenchang.Text.{Str, starts_with}
use wenchang.Utf8.{Bytes, encode, decode}
use wenchang.Paths.{is_valid_path}
use wenchang.Errors.{Error, value_error, unicode_encode}
use wenchang.FileFormat.Metadata.{Codec, metadata_from_map}
use wenchang.Storage.{ListedObject}
use wenchang.Core.{FileEntry}

-- `page[-1].key`
unfoldable pub last_key : List ListedObject → Option Str
last_key [] = none
last_key (o ∷ []) = some o.key
last_key (o ∷ p ∷ os) = last_key (p ∷ os)

module _ (c : Codec) where
  unfoldable pub encoded : Option Bytes → Result Error Str
  encoded none = err unicode_encode
  encoded (some bs) = ok (c.b64encode bs)

  unfoldable pub encode_cursor : Str → Result Error Str
  unfolding encoded
  encode_cursor key = encoded (encode key)

  unfoldable pub decoded : Option Bytes → Option Str
  decoded none = none
  decoded (some bs) = decode bs

  unfoldable pub issued_for : Str → Option Str → Result Error Str
  issued_for prefix none = err value_error
  issued_for prefix (some key) = if starts_with key prefix then ok key else err value_error

  unfoldable pub decode_cursor : Str → Str → Result Error Str
  unfolding decoded issued_for
  decode_cursor cursor prefix = issued_for prefix (decoded (c.b64decode cursor))

  unfoldable pub start_of : Option Str → Str → Result Error (Option Str)
  start_of none prefix = ok none
  start_of (some cursor) prefix = do key ← decode_cursor cursor prefix; ok (some key)

  -- The comprehension over a page: a key that is no memory path is left out.
  unfoldable pub entries_of : List ListedObject → Result Error (List FileEntry)
  entries_of [] = ok []
  entries_of (o ∷ os) =
      let rest = entries_of os in
      let entry = (do
        m ← metadata_from_map c o.metadata
        es ← rest
        ok (record { path = o.key; metadata = m; version = o.version } ∷ es)) in
      if is_valid_path o.key then entry else rest

  unfoldable pub next_of : Bool → Option Str → Result Error (Option Str)
  next_of true (some key) = do cursor ← encode_cursor key; ok (some cursor)
  next_of true none = ok none
  next_of false _ = ok none
