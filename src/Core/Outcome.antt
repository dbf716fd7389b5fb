-- ===== src/Core/Outcome.antt =====
-- What a mutation that returns a file leaves: that file, and nothing else changed. A mutation that
-- raises leaves every object as it was.
use wenchang.Base.{All, ◌≤◌, true, some, ◌≡◌, refl, arith, length, ◌∙◌}
use wenchang.Base.Result.{Result, ok, err}
use wenchang.Text.{Str, str_eq_iff}
use wenchang.Utf8.{Bytes, encode}
use wenchang.Utf8.RoundTrip.{decode-encode}
use wenchang.Text.SortedSet.{IsSorted}
use wenchang.FileFormat.Metadata.{
  Codec, IsCodec, FileMetadata, IsMetadata, make_metadata, rendered_map, is_renderable, IsEncodable,
}
use wenchang.FileFormat.Metadata.RoundTrip.{metadata_from_map-rendered_map}
use wenchang.Paths.{is_valid_path}
use wenchang.Storage.{Backend, StoredObject}
use wenchang.Storage.Contract.{Contract}
use wenchang.Core.{Config, MemoryFile}
use wenchang.Core.Commit.{Changed}
use wenchang.Core.Rules.{Same, Holds}
use wenchang.Errors.{Error}
use wenchang.Base.Exec.{◌>>=◌}
use wenchang.Core.Steps.{decoded, encoded, stamp}
use wenchang.Core.Read.{read_file}

pub decoded-encode :
    (content : Str) (body : Bytes) → encode content ≡ some body → decoded body ≡ ok content
unfolding decoded
decoded-encode content body h = rw (decode-encode content body h, decoded)

pub encoded-eq_ok :
    (content : Str) (body : Bytes) → encoded content ≡ ok body → encode content ≡ some body
unfolding encoded
encoded-eq_ok content body h = ground arith

-- Metadata that is stamped passes the tests unchanged.
pub stamp-eq_ok :
    (m m' : FileMetadata) → IsSorted m.sources → stamp m ≡ ok m' → (m' ≡ m) × IsMetadata m'
unfolding stamp make_metadata
stamp-eq_ok m m' sorted h = ground arith

-- The object that holds a file.
abbrev pub object_of : Codec → MemoryFile → Bytes → StoredObject
object_of c f body = record {
  body = body;
  metadata = rendered_map c f.metadata;
  version = f.version;
}

module _ (B : Backend) (C : Contract B) (c : Codec) (k : Config) (s₀ : B.State) where
  pub record Wrote (path : Str) (f : MemoryFile) (s : B.State) : Type 0 where
    pub body : Bytes
    pub valid : is_valid_path path ≡ true
    pub at_path : f.path ≡ path
    pub encodes : encode f.content ≡ some body
    pub fits : length body ≤ k.max_file_bytes
    pub metadata : IsMetadata f.metadata
    pub renders : is_renderable f.metadata.last_updated.micros ≡ true
    pub changed : Changed B C k s₀ path (some (object_of c f body)) s

  -- What was written is what `read_file` then returns.
  pub read_file-Wrote :
      IsCodec c
      → (path : Str) (f : MemoryFile) (s : B.State) → Wrote path f s
      → All IsEncodable f.metadata.aliases
      → All IsEncodable f.metadata.sources
      → read_file B c k path s ≡ (ok f, s)
  unfolding read_file ◌>>=◌
  read_file-Wrote law path f s w aliases sources =
      let seen : C.view s path ≡ some (object_of c f w.body) =
        w.changed.views path ∙ ground (arith, str_eq_iff path path) in
      rw (w.valid, C.get-view path s, seen)
        (simp
          (
            decoded-encode f.content w.body w.encodes,
            metadata_from_map-rendered_map c law f.metadata w.metadata aliases sources w.renders,
          )
          (rw (← w.at_path)))

  -- A state by itself: the objects are its own.
  pub Same-refl : C.Good s₀ → Same B C s₀ s₀
  Same-refl good = record { good = good; views = λ j. refl }

  pub Holds-map :
      {A : Type 0} {P Q : A → B.State → Type 0} (x : Result Error A × B.State)
      → ((a : A) (s : B.State) → P a s → Q a s)
      → Holds B C s₀ P x
      → Holds B C s₀ Q x
  Holds-map (ok a, s) h p = h a s p
  Holds-map (err e, s) h p = p

module _ (B : Backend) (C : Contract B) (s₀ : B.State) where
  pub Holds-ok :
      {A : Type 0} (P : A → B.State → Type 0) (x : Result Error A × B.State) (a : A) (t : B.State)
      → Holds B C s₀ P x
      → x ≡ (ok a, t)
      → P a t
  Holds-ok P x a t h e = rw e at h
