-- ===== src/Database/Keys.antt =====
-- The tables node_keys and encryption_keys of src/database/index.ts. The row that an INSERT OR
-- REPLACE writes gets a new id, and so the last place.
use yapyap.Prelude.{ℕ, String, List, [], ◌∷◌, ◌++◌, Option, none, some, string_keys, map}
use yapyap.Map.{get, delete}

pub record NodeKey : Type 0 where
  pub public_key : String
  pub private_key : String
  pub created_at : ℕ
  pub updated_at : ℕ

abbrev pub NodeKeyTable : Type 0
NodeKeyTable = List (String × NodeKey)

unfoldable pub save_node_key : ℕ → String → String → NodeKeyTable → NodeKeyTable
save_node_key now public_key private_key table =
    delete table public_key
    ++ (
      public_key,
      record {
        public_key = public_key;
        private_key = private_key;
        created_at = now;
        updated_at = now;
      },
    )
      ∷ []

unfoldable pub get_node_key : NodeKeyTable → String → Option NodeKey
get_node_key table public_key = get table public_key

abbrev pub get_current_node_key : NodeKeyTable → Option NodeKey
get_current_node_key [] = none
get_current_node_key ((id, row) ∷ rows) = some row

abbrev pub get_all_node_keys : NodeKeyTable → List NodeKey
get_all_node_keys table = map (λ e. e.1) table

-- the only row of encryption_keys, whose id is 1
abbrev pub save_encryption_key : ℕ → String → String → Option NodeKey → NodeKey
save_encryption_key now public_key private_key none = record {
  public_key = public_key;
  private_key = private_key;
  created_at = now;
  updated_at = now;
}
save_encryption_key now public_key private_key (some row) = record row {
  public_key = public_key;
  private_key = private_key;
  updated_at = now;
}
