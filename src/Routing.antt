-- ===== src/Routing.antt =====
-- RoutingModule of src/routing/index.ts: the table of peers, the 256 buckets by distance, and what
-- is kept of each peer. `xor` of the package uint8arrays is a function of the surroundings, where
-- `none` is a throw; a method reads the clock once, as `now`. A Set is a map to the unit.
pub mod Table
pub mod Distance
pub mod Choice
pub mod Top
pub mod Valid
pub mod Keeps
pub mod Runs
pub mod Refresh
pub mod Tests
use yapyap.Prelude.{
  ℕ, zero, suc, ◌+◌, ◌-◌, ◌*◌, ◌/◌, ◌%◌, ◌^◌, ◌++◌, String, List, [], ◌∷◌, Option, none, some, Bool,
  true, false, ◌&&◌, not, if◌then◌else◌, is_some, or_else, ◌==◌, string_keys, leb, ltb, nat_eq,
  length, keep, map,
}
use yapyap.Prelude.Int.{ℤ, pos, negsuc, ◌+ℤ◌, minℤ, maxℤ}
use yapyap.Map.{get, put, delete}
use yapyap.Text.{codes, is_hex_text, hex_bytes}

pub record PeerEntry : Type 0 where
  pub last_seen : ℕ
  pub is_available : Bool

abbrev pub Bucket : Type 0
Bucket = List (String × PeerEntry)

pub record Metrics : Type 0 where
  pub lookups : ℕ
  pub successful_lookups : ℕ
  pub failed_lookups : ℕ
  pub routing_table_updates : ℕ

pub record RoutingModule : Type 0 where
  pub self_id : String
  pub peer_load : List (String × ℕ)
  pub reputation : List (String × ℤ)
  pub routing_table : List (String × PeerEntry)
  pub buckets : List Bucket
  pub discovered_peers : List (String × Unit {0})
  pub connected_peers : List (String × Unit {0})
  pub inbound_peers : List (String × Unit {0})
  pub metrics : Metrics

pub record Surroundings : Type 0 where
  pub now : ℕ
  pub xor : List ℕ → List ℕ → Option (List ℕ)

abbrev pub bucket_count : ℕ
bucket_count = 256

abbrev pub empty_buckets : ℕ → List Bucket
empty_buckets zero = []
empty_buckets (suc n) = [] ∷ empty_buckets n

-- the constructor
unfoldable pub new_routing_module : String → RoutingModule
new_routing_module self = record {
  self_id = self;
  peer_load = [];
  reputation = [];
  routing_table = [];
  buckets = empty_buckets bucket_count;
  discovered_peers = [];
  connected_peers = [];
  inbound_peers = [];
  metrics = record {
    lookups = 0;
    successful_lookups = 0;
    failed_lookups = 0;
    routing_table_updates = 0;
  };
}

unfoldable pub get_peer_load : RoutingModule → String → ℕ
get_peer_load r peer = or_else (get r.peer_load peer) 0

unfoldable pub increment_peer_load : String → RoutingModule → RoutingModule
increment_peer_load peer r = record r {
  peer_load = put r.peer_load peer (get_peer_load r peer + 1);
}

-- Math.max(0, prev - 1)
unfoldable pub decrement_peer_load : String → RoutingModule → RoutingModule
decrement_peer_load peer r = record r {
  peer_load = put r.peer_load peer (get_peer_load r peer - 1);
}

unfoldable pub get_reputation : RoutingModule → String → ℤ
get_reputation r peer = or_else (get r.reputation peer) (pos 0)

abbrev pub max_reputation : ℤ
max_reputation = pos 100

abbrev pub min_reputation : ℤ
min_reputation = negsuc 99

unfoldable pub bump_reputation : String → ℤ → RoutingModule → RoutingModule
bump_reputation peer delta r = record r {
  reputation =
      put r.reputation peer
        (maxℤ min_reputation (minℤ max_reputation (get_reputation r peer +ℤ delta)));
}

unfoldable pub set_reputation : String → ℤ → RoutingModule → RoutingModule
set_reputation peer score r = record r { reputation = put r.reputation peer score }

-- penalizePeer, with the penalty below zero
unfoldable pub penalize_peer : String → ℕ → RoutingModule → RoutingModule
penalize_peer peer zero = bump_reputation peer (pos 0)
penalize_peer peer (suc n) = bump_reputation peer (negsuc n)

unfoldable pub on_peer_discovery : String → RoutingModule → RoutingModule
on_peer_discovery peer r = record r {
  discovered_peers = put r.discovered_peers peer tt;
  reputation =
      if is_some (get r.reputation peer) then r.reputation else put r.reputation peer (pos 0);
}

unfoldable pub record_lookup : Bool → RoutingModule → RoutingModule
record_lookup success r = record r {
  metrics = record (r.metrics) {
    lookups = r.metrics.lookups + 1;
    successful_lookups = r.metrics.successful_lookups + (if success then 1 else 0);
    failed_lookups = r.metrics.failed_lookups + (if success then 0 else 1);
  };
}

unfoldable pub on_peer_connect : String → RoutingModule → RoutingModule
on_peer_connect peer r =
    bump_reputation peer (pos 1) (record r { connected_peers = put r.connected_peers peer tt })

unfoldable pub on_peer_disconnect : String → RoutingModule → RoutingModule
on_peer_disconnect peer r =
    bump_reputation peer (negsuc 0) (record r { connected_peers = delete r.connected_peers peer })

unfoldable pub on_inbound_connection : String → RoutingModule → RoutingModule
on_inbound_connection peer r = record r { inbound_peers = put r.inbound_peers peer tt }

unfoldable pub on_inbound_disconnect : String → RoutingModule → RoutingModule
on_inbound_disconnect peer r = record r { inbound_peers = delete r.inbound_peers peer }

-- the number of zeros in front, among so many bits; Math.clz32 counts among 32
unfoldable pub leading_zeros : ℕ → ℕ → ℕ
leading_zeros zero n = 0
leading_zeros (suc bits) n =
    let rest = leading_zeros bits n in if nat_eq (n / 2 ^ bits % 2) 0 then rest + 1 else 0

abbrev pub clz32 : ℕ → ℕ
clz32 n = leading_zeros 32 n

-- the loop of getBucketIdForPeer from the byte of index i on
unfoldable pub first_bit : ℕ → List ℕ → ℕ
first_bit i [] = 255
first_bit i (byte ∷ bytes) =
    let rest = first_bit (i + 1) bytes in if nat_eq byte 0 then rest else i * 8 + clz32 byte - 24

abbrev pub bucket_of_distance : Option (List ℕ) → ℕ
bucket_of_distance none = 255
bucket_of_distance (some dist) = first_bit 0 dist

unfoldable pub get_bucket_id_for_peer : Surroundings → String → String → ℕ
get_bucket_id_for_peer env self peer =
    if not (is_hex_text (codes peer))
    then 255
    else if not (is_hex_text (codes self))
    then 255
    else bucket_of_distance (env.xor (hex_bytes (codes self)) (hex_bytes (codes peer)))

-- this.buckets[id], changed; an id that is out of range changes nothing
unfoldable pub change_bucket : ℕ → (Bucket → Bucket) → List Bucket → List Bucket
change_bucket i f [] = []
change_bucket zero f (b ∷ bs) = f b ∷ bs
change_bucket (suc i) f (b ∷ bs) = b ∷ change_bucket i f bs

unfoldable pub get_bucket : ℕ → List Bucket → Bucket
get_bucket i [] = []
get_bucket zero (b ∷ bs) = b
get_bucket (suc i) (b ∷ bs) = get_bucket i bs
