-- ===== src/Core/Cursor/Pages.antt =====
-- The entries of two parts of a listing, and cursors that lead back to their key
-- (src/wenchang/core.py).
use wenchang.Base.{
  Bool, true, false, some, List, [], ◌∷◌, ◌++◌, ◌≡◌, refl, append_assoc, if◌then◌else◌,
}
use wenchang.Base.Result.{Result, ok, err, ◌>>=◌}
use wenchang.Text.{Str, starts_with}
use wenchang.Utf8.{Bytes, encode}
use wenchang.Utf8.RoundTrip.{decode-encode}
use wenchang.Utf8.Octets.{encode-AreOctets}
use wenchang.Paths.{is_valid_path}
use wenchang.Errors.{Error}
use wenchang.FileFormat.Metadata.{Codec, IsBase64, FileMetadata, metadata_from_map}
use wenchang.Storage.{ListedObject}
use wenchang.Core.{FileEntry}
use wenchang.Core.Cursor.{entries_of, decode_cursor, decoded, issued_for}

-- The entries in front of those of a result.
abbrev pub behind : List FileEntry → Result Error (List FileEntry) → Result Error (List FileEntry)
behind es (ok fs) = ok (es ++ fs)
behind es (err e) = err e

-- The result of one page and of the rest.
abbrev pub both_pages :
    Result Error (List FileEntry) → Result Error (List FileEntry) → Result Error (List FileEntry)
both_pages (ok es) r = behind es r
both_pages (err e) r = err e

pub behind-nil : (r : Result Error (List FileEntry)) → behind [] r ≡ r
behind-nil (ok fs) = refl
behind-nil (err e) = refl

pub behind-append :
    (es fs : List FileEntry) (r : Result Error (List FileEntry))
    → behind (es ++ fs) r ≡ behind es (behind fs r)
behind-append es fs (ok gs) = rw (append_assoc es fs gs) refl
behind-append es fs (err e) = refl

-- The first object of a page, in front of what the others and the rest give.
first_then :
    (b : Bool) (m : Result Error FileMetadata) (entry : FileMetadata → FileEntry)
    (x y : Result Error (List FileEntry))
    → (if b then m >>= (λ a. both_pages x y >>= λ es. ok (entry a ∷ es)) else both_pages x y)
      ≡ both_pages (if b then m >>= (λ a. x >>= λ es. ok (entry a ∷ es)) else x) y
first_then false m entry x y = refl
first_then true (err e) entry x y = refl
first_then true (ok a) entry (err e) y = refl
first_then true (ok a) entry (ok es) (err e) = refl
first_then true (ok a) entry (ok es) (ok fs) = refl

module _ (c : Codec) where
  pub entries_of-append :
      (p q : List ListedObject)
      → entries_of c (p ++ q) ≡ both_pages (entries_of c p) (entries_of c q)
  unfolding entries_of
  entries_of-append [] q = (rw (behind-nil (entries_of c q)) refl)
  entries_of-append (o ∷ p) q = rw (entries_of-append p q) (
      first_then (is_valid_path o.key) (metadata_from_map c o.metadata)
        (λ m. record { path = o.key; metadata = m; version = o.version }) (entries_of c p)
        (entries_of c q))

  -- A cursor leads back to its key.
  pub decode_cursor-encode_cursor :
      (prefix key : Str) (bs : Bytes)
      → IsBase64 c
      → encode key ≡ some bs
      → starts_with key prefix ≡ true
      → decode_cursor c (c.b64encode bs) prefix ≡ ok key
  unfolding decode_cursor decoded issued_for
  decode_cursor-encode_cursor prefix key bs law h u =
      rw (law.b64decode-b64encode bs (encode-AreOctets key bs h), decode-encode key bs h, u) refl
