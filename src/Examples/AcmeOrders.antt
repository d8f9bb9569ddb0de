-- ===== src/Examples/AcmeOrders.antt =====
-- One ACME order for a wildcard and a host name, from `newOrder` to its certificate.
use chancery.Prelude.{◌+◌, ◌≤◌, ◌≡◌, refl, none, some, true, false, List, [], ◌∷◌, minutes}
use chancery.Acme.Types.{Order, ErrorType, http01, dns01}
use chancery.Acme.Challenges.{Retry, passed, failed}
use chancery.Acme.Refresh.{refresh_order}
use chancery.Acme.Orders.{Site, Item, NewIds, new_order, order_for, wildcard_base}
use chancery.Acme.Finalize.{Csr, Profile, finalize}
use chancery.Acme.Lifecycle.{Event, apply_all}
use chancery.Acme.Nonces.{Nonce, Traffic, consume_nonce, handle_all, find_nonce, consume_once}

site : Site
site = record {
  allow_wildcards = true;
  max_identifiers = 100;
  order_lifetime_hours = 168;
  offered = http01 ∷ dns01 ∷ [];
  clean = λ v. v;
  is_hostname = λ v. true;
  is_ipv4 = λ v. false;
  names_allowed = λ vs. true;
  token_of = λ n. "token";
}

first_ids : NewIds
first_ids = record { order_id = 1; authz_id = 10; challenge_id = 100 }

items : List Item
items =
    Item.object (some "dns") (some "*.ca.test")
    ∷ Item.object (some "dns") (some "www.ca.test")
    ∷ Item.object (some "dns") (some "*.ca.test")
    ∷ []

start : Order
start = order_for site 3 4 first_ids 1000 ("*.ca.test" ∷ "www.ca.test" ∷ [])

retry : Retry
retry = record { max_attempts = 10; retry_seconds = 10 }

events : List Event
events =
    Event.responded 2000 10 100 (failed ErrorType.connection)
    ∷ Event.responded 3000 11 101 passed
    ∷ Event.maintained 4000
    ∷ Event.polled 20000000 10 passed
    ∷ []

csr : Csr
csr = record {
  pem = "csr";
  signature_valid = true;
  dns_names = "www.ca.test" ∷ "*.ca.test" ∷ [];
  other_names = false;
  common_name = none;
}

profile : Profile
profile = record { enabled = true; max_validity_days = 30 }

program : Unit {0}
unfolding site first_ids items start retry events csr profile new_order order_for apply_all finalize
    wildcard_base refresh_order
program = tt

table : List Nonce
table = record { value = "n1"; created_at = 500 } ∷ []

traffic : List Traffic
traffic = Traffic.issued "n2" 600 ∷ Traffic.consumed true "n2" 700 ∷ Traffic.pruned 800 ∷ []

nonce_program : Unit {0}
unfolding table traffic consume_nonce handle_all
nonce_program = tt

n1-accepted : (consume_nonce 60 true "n1" 1000 table).0 ≡ true
unfolding nonce_program
n1-accepted = refl

consume_once_example :
    ((n : Nonce) × (find_nonce "n1" table ≡ some n) × (1000 ≤ n.created_at + minutes 60))
    × ((consume_nonce 60 true "n1" 2000
          (handle_all 60 traffic (consume_nonce 60 true "n1" 1000 table).1)).0
        ≡ false)
unfolding traffic
consume_once_example = consume_once 60 true "n1" 1000 table traffic true 2000 n1-accepted refl
