-- ===== src/Mandate/Service/Store/Mandates.antt =====
-- packages/mandate/src/service/memory.ts: InMemoryMandateStore. The key, the text
-- `organization/id`, is the pair of the two.
use atlas_rail.Common.{
  String, Bool, not, ◌&&◌, Option, List, any, find, filterb, is_some, ◌==◌, string_eq,
}
use atlas_rail.Mandate.Service.Ports.{MandateRecord, Thrown}
use atlas_rail.Mandate.Service.World.{World, Action, read, write, guard, ◌>>=◌, ◌>>◌}
use atlas_rail.Mandate.Service.Store.Table.{put}

abbrev pub keyed : String → String → MandateRecord → Bool
keyed organization_id mandate_id r =
    r.organization_id == organization_id && r.mandate.id == mandate_id

unfoldable pub get_mandate : String → String → World → Option MandateRecord
get_mandate organization_id mandate_id w = find (keyed organization_id mandate_id) w.mandates

unfoldable pub list_mandates : String → World → List MandateRecord
list_mandates organization_id w = filterb (λ r. r.organization_id == organization_id) w.mandates

unfoldable pub nonce_exists : String → String → String → World → Bool
nonce_exists organization_id nonce except_mandate_id w =
    any
      (λ r.
        r.organization_id == organization_id
        && (r.mandate.nonce == nonce && not (r.mandate.id == except_mandate_id)))
      w.mandates

abbrev pub set_mandate : MandateRecord → World → World
set_mandate r w = record w { mandates = put (keyed r.organization_id r.mandate.id) r w.mandates }

abbrev pub insert_mandate : MandateRecord → Action (Unit {0})
insert_mandate r = do
  exists ← read (λ w. is_some (get_mandate r.organization_id r.mandate.id w))
  guard exists Thrown.duplicate_mandate
  write (set_mandate r)

abbrev pub update_mandate : MandateRecord → Action (Unit {0})
update_mandate r = write (set_mandate r)
