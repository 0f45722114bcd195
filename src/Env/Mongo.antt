-- ===== src/Env/Mongo.antt =====
-- The interface of a MongoDB collection with a unique key, as mongoose gives it to the program:
-- `findOne` by the key, `save` of a document (it inserts or overwrites), and `deleteOne`.
use scan_service.Prelude.{◌≡◌, Bool, Option, none, some, ◌&&◌, if◌then◌else◌}
use scan_service.Prelude.Text.{Text, same_text}

abbrev pub same_pair : Text × Text → Text × Text → Bool
same_pair (a, b) (c, d) = same_text a c && same_text b d

abbrev pub same_triple : Text × Text × Text → Text × Text × Text → Bool
same_triple (a, b, c) (x, y, z) = same_text a x && same_text b y && same_text c z

pub record Collection (K : Type 0) (same : K → K → Bool) (Doc : Type 0) : Type 1 where
  pub Store : Type 0
  pub find_one : K → Store → Option Doc
  pub save : K → Doc → Store → Store
  pub delete_one : K → Store → Store
  pub find_one-save :
      (k j : K) (x : Doc) (s : Store)
      → find_one j (save k x s) ≡ (if same k j then some x else find_one j s)
  pub find_one-delete_one :
      (k j : K) (s : Store)
      → find_one j (delete_one k s) ≡ (if same k j then none else find_one j s)
