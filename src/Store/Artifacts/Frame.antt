-- ===== src/Store/Artifacts/Frame.antt =====
-- What a read of the artifacts' table leaves alone.
use mcpgate.Prelude.{ℕ, String, ◌≡◌, refl, ◌∙◌, Bool, true, false, Option, none, some}
use mcpgate.Crypto.{Crypto}
use mcpgate.Store.{Kind, Artifact, Db}
use mcpgate.Store.Artifacts.{take_found, get_artifact}

-- The tables of tickets and of events.
pub record SameTables (db db' : Db) : Type 0 where
  pub tickets : db'.tickets ≡ db.tickets
  pub last_ticket_id : db'.last_ticket_id ≡ db.last_ticket_id
  pub events : db'.events ≡ db.events

pub SameTables-trans : {a b d : Db} → SameTables a b → SameTables b d → SameTables a d
SameTables-trans x y = record {
  tickets = y.tickets ∙ x.tickets;
  last_ticket_id = y.last_ticket_id ∙ x.last_ticket_id;
  events = y.events ∙ x.events;
}

take_found-SameTables :
    (digest : String) (consume : Bool) (db : Db) (o : Option Artifact)
    → SameTables db (take_found digest consume db o).1
unfolding take_found
take_found-SameTables digest consume db none = record {
  tickets = refl;
  last_ticket_id = refl;
  events = refl;
}
take_found-SameTables digest false db (some a) = record {
  tickets = refl;
  last_ticket_id = refl;
  events = refl;
}
take_found-SameTables digest true db (some a) = record {
  tickets = refl;
  last_ticket_id = refl;
  events = refl;
}

pub get_artifact-SameTables :
    (c : Crypto) (token : String) (kind : Kind) (consume : Bool) (now : ℕ) (db : Db)
    → SameTables db (get_artifact c token kind consume now db).1
unfolding get_artifact
get_artifact-SameTables c token kind consume now db =
    take_found-SameTables (c.sha256 token) consume db _
