-- ===== src/Database/Contacts.antt =====
-- The tables of contacts, of their search index and of peer metadata in src/database/index.ts.
-- What normalizeMetadata and formatMetadataForDisplay make of a JSON text are functions of the
-- surroundings; a metadata value is represented by itself in place of its text.
use yapyap.Prelude.{
  ℕ, ◌+◌, String, List, [], ◌∷◌, ◌++◌, Option, none, some, Bool, true, ◌-◌, not, if◌then◌else◌,
  ◌==◌, string_keys, leb, ltb, keep, map, length, is_some,
}
use yapyap.Map.{get, put, delete, modify}
use yapyap.Sort.{sort_with}
use yapyap.Database.{replica_keys}

pub record Contact : Type 0 where
  pub peer_id : String
  pub alias : String
  pub last_seen : ℕ
  pub metadata : String
  pub is_trusted : Bool

pub record IndexRow : Type 0 where
  pub alias : String
  pub metadata : String

pub record MetadataRow (V : Type 0) : Type 0 where
  pub value : V
  pub updated_at : ℕ
  pub ttl : ℕ

-- A contact's row keeps its id too.
pub record PeerTables (V : Type 0) : Type 0 where
  pub contacts : List (String × Contact)
  pub search_index : List (String × IndexRow)
  pub peer_metadata : List ((String × String) × MetadataRow V)

pub record ContactEnv : Type 0 where
  pub now : ℕ
  pub normalize_metadata : String → String
  pub format_metadata : String → String

-- WHERE excluded.last_seen >= contacts.last_seen
abbrev pub replaces : Contact → Option Contact → Bool
replaces c none = true
replaces c (some old) = leb old.last_seen c.last_seen

abbrev shown : ContactEnv → Contact → Contact
shown env c = record c { metadata = env.format_metadata c.metadata }

module _ {V : Type 0} where
  unfoldable pub upsert_contact_search_index : Contact → PeerTables V → PeerTables V
  upsert_contact_search_index c t = record t {
    search_index =
        delete t.search_index c.peer_id
        ++ (c.peer_id, record { alias = c.alias; metadata = c.metadata }) ∷ [];
  }

  unfoldable pub save_contact :
      ContactEnv → String → String → String → Bool → PeerTables V → PeerTables V
  save_contact env peer alias metadata is_trusted t =
      let c : Contact = record {
        peer_id = peer;
        alias = alias;
        last_seen = env.now;
        metadata = env.normalize_metadata metadata;
        is_trusted = is_trusted;
      } in
      upsert_contact_search_index c (record t { contacts = put t.contacts peer c })

  unfoldable pub save_contact_lww : ContactEnv → Contact → PeerTables V → PeerTables V
  save_contact_lww env contact t =
      let c = record contact { metadata = env.normalize_metadata contact.metadata } in
      upsert_contact_search_index c (record t {
        contacts =
            if replaces c (get t.contacts c.peer_id)
            then put t.contacts c.peer_id c
            else t.contacts;
      })

  unfoldable pub get_contact : ContactEnv → PeerTables V → String → Option Contact
  get_contact env t peer = elim (get t.contacts peer) [ none ↦ none | some c ↦ some (shown env c) ]

  -- ORDER BY last_seen DESC
  unfoldable pub get_all_contacts : ContactEnv → PeerTables V → List Contact
  get_all_contacts env t =
      map (shown env) (sort_with (λ a b. leb b.last_seen a.last_seen) (map (λ e. e.1) t.contacts))

  unfoldable pub update_contact_last_seen : ℕ → String → PeerTables V → PeerTables V
  update_contact_last_seen now peer t = record t {
    contacts = modify t.contacts peer (λ c. record c { last_seen = now });
  }

  unfoldable pub delete_contact : String → PeerTables V → ℕ × PeerTables V
  delete_contact peer t = (
    if is_some (get t.contacts peer) then 1 else 0,
    record t { contacts = delete t.contacts peer; search_index = delete t.search_index peer },
  )

  unfoldable pub save_peer_metadata :
      ℕ → String → String → V → Option ℕ → PeerTables V → PeerTables V
  save_peer_metadata now peer key value ttl t = record t {
    peer_metadata =
        put t.peer_metadata (peer, key)
          (record {
            value = value;
            updated_at = now;
            ttl = elim ttl [ none ↦ 86400 | some n ↦ n ];
          });
  }

  unfoldable pub read_peer_metadata : PeerTables V → String → String → Option V
  read_peer_metadata t peer key = elim (get t.peer_metadata (peer, key)) [
    | none ↦ none
    | some row ↦ some row.value
  ]

  unfoldable pub get_all_peer_metadata : PeerTables V → String → List (String × V)
  get_all_peer_metadata t peer =
      map (λ e. (e.0.1, e.1.value)) (keep (λ e. e.0.0 == peer) t.peer_metadata)

  unfoldable pub delete_expired_peer_metadata : ℕ → PeerTables V → ℕ × PeerTables V
  delete_expired_peer_metadata now t =
      let left = keep (λ e. not (ltb (e.1.updated_at + e.1.ttl) now)) t.peer_metadata in
      (length t.peer_metadata - length left, record t { peer_metadata = left })
