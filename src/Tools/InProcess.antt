-- ===== src/Tools/InProcess.antt =====
-- `InProcessClient` (src/wenchang/transport.py): the tools over a store in the same process.
pub mod RoundTrip
use wenchang.Base.{ℕ}
use wenchang.Storage.{Backend}
use wenchang.FileFormat.Metadata.{Codec}
use wenchang.Core.{Config}
use wenchang.Core.Read
use wenchang.Core.Write
use wenchang.Core.Edit
use wenchang.Core.Listing
use wenchang.Core.Collect
use wenchang.Core.Cached.{ListingCodec}
use wenchang.Tools.{Client}

-- Every method forwards its arguments.
unfoldable pub in_process : Backend → Codec → ListingCodec → Config → ℕ → Client
in_process B c l k rounds = record {
  State = B.State;
  read_file = Read.read_file B c k;
  write_file = λ path content metadata expected source.
      Write.write_file B c k rounds path content metadata expected source;
  append_line = λ path line expected source aliases description.
      Edit.append_line B c k path line expected source aliases description;
  replace_fact = λ path old new expected source aliases description.
      Edit.replace_fact B c k path old new expected source aliases description;
  list_prefix = Listing.list_prefix B c k;
  delete_file = Read.delete_file B c k;
  get_memory_index = Collect.get_memory_index B c l k rounds;
}
