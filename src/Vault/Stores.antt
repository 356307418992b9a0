-- ===== src/Vault/Stores.antt =====
-- src/vault/syncstore.cpp and src/vault/pinstore.cpp: a file that is there or not. What the disk does
-- is an argument.
use harbour_leyni.Prelude.{Bool, true, false, [], Option, none, some, Bytes}

abbrev pub File : Type 0
File = Option Bytes

-- Where the write through a `QSaveFile` ends.
pub data Writing : Type 0 where
  cannot_open short_write cannot_commit committed : Writing

-- Only a commit replaces the file.
unfoldable pub save : Writing → Bytes → File → File × Bool
save cannot_open content file = (file, false)
save short_write content file = (file, false)
save cannot_commit content file = (file, false)
save committed content file = (some content, true)

-- An empty text for a file that is not there.
unfoldable pub load : File → Bytes
load none = []
load (some content) = content

unfoldable pub exists : File → Bool
exists none = false
exists (some content) = true

-- The flag is the answer of `QFile::remove`.
unfoldable pub clear : Bool → File → File × Bool
clear removed none = (none, true)
clear true (some content) = (none, true)
clear false (some content) = (some content, false)
