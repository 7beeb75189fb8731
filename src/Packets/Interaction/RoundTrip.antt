-- ===== src/Packets/Interaction/RoundTrip.antt =====
-- What the encoders of interaction.rs write, the decoders read back.
use sky_saga_rs.Common.{◌<◌, ◌^◌, true, false, ◌≡◌, refl, ap, subst, Option, none, some, arith}
use sky_saga_rs.BitStream.Writer.{write_u32}
use sky_saga_rs.BitStream.Reader.{◌>>=◌, pure, read_u32}
use sky_saga_rs.BitStream.RoundTrip.{
  RoundTrip, RoundTrip-seq, RoundTrip-map, RoundTrip-pure, RoundTrip-bit, RoundTrip-u32,
}
use sky_saga_rs.Packets.Creation.{with_id, RoundTrip-with_id}
use sky_saga_rs.Hash.{name_hash, hash_from}
use sky_saga_rs.Packets.Interaction.{
  InteractWithEntity, encode_interact_with_entity, decode_interact_with_entity,
  IsInteractWithEntity, Action, action_name, action_hash, find_action, or_unknown, action_of,
  write_action, read_action, IsAction, place_voxel, dig, activate_portal, throw_pickup, attack,
  create_device, create_entity, create_pickup_entity, pickup, interact_action, launch_projectile,
  eat, learn_emote, learn_recipe, learn_home_island_title, unlock_job_challenge, block,
  blast_radius, resource_pickup, gather, unknown_action, ExecuteEntityAction,
  encode_execute_entity_action, decode_execute_entity_action, IsExecuteEntityAction,
}

pub RoundTrip-interact_with_entity :
    (p : InteractWithEntity)
    → IsInteractWithEntity p
    → RoundTrip (encode_interact_with_entity p) (with_id decode_interact_with_entity) (20, p)
unfolding encode_interact_with_entity decode_interact_with_entity
RoundTrip-interact_with_entity p h = RoundTrip-with_id 20 (omega arith) (
    RoundTrip-seq _ (RoundTrip-u32 p.interacting_entity h.interacting_entity_fits)
      (RoundTrip-map _ (RoundTrip-u32 p.target_entity h.target_entity_fits)))

-- Every action is found again by its hash: those with a name, whose hashes differ from one another, and an
-- unknown one whose hash is a u32 and none of theirs.
pub action_of-action_hash : (a : Action) → IsAction (some a) → action_of (action_hash a) ≡ a
unfolding action_of action_hash find_action action_name name_hash hash_from
action_of-action_hash place_voxel h = refl
action_of-action_hash dig h = refl
action_of-action_hash activate_portal h = refl
action_of-action_hash throw_pickup h = refl
action_of-action_hash attack h = refl
action_of-action_hash create_device h = refl
action_of-action_hash create_entity h = refl
action_of-action_hash create_pickup_entity h = refl
action_of-action_hash pickup h = refl
action_of-action_hash interact_action h = refl
action_of-action_hash launch_projectile h = refl
action_of-action_hash eat h = refl
action_of-action_hash learn_emote h = refl
action_of-action_hash learn_recipe h = refl
action_of-action_hash learn_home_island_title h = refl
action_of-action_hash unlock_job_challenge h = refl
action_of-action_hash block h = refl
action_of-action_hash blast_radius h = refl
action_of-action_hash resource_pickup h = refl
action_of-action_hash gather h = refl
action_of-action_hash (unknown_action hash) h = ap (λ o. or_unknown o hash) h.1

action_hash-lt : (a : Action) → IsAction (some a) → action_hash a < 2 ^ 32
unfolding action_hash action_name name_hash hash_from
action_hash-lt place_voxel h = omega arith
action_hash-lt dig h = omega arith
action_hash-lt activate_portal h = omega arith
action_hash-lt throw_pickup h = omega arith
action_hash-lt attack h = omega arith
action_hash-lt create_device h = omega arith
action_hash-lt create_entity h = omega arith
action_hash-lt create_pickup_entity h = omega arith
action_hash-lt pickup h = omega arith
action_hash-lt interact_action h = omega arith
action_hash-lt launch_projectile h = omega arith
action_hash-lt eat h = omega arith
action_hash-lt learn_emote h = omega arith
action_hash-lt learn_recipe h = omega arith
action_hash-lt learn_home_island_title h = omega arith
action_hash-lt unlock_job_challenge h = omega arith
action_hash-lt block h = omega arith
action_hash-lt blast_radius h = omega arith
action_hash-lt resource_pickup h = omega arith
action_hash-lt gather h = omega arith
action_hash-lt (unknown_action hash) h = h.0

pub RoundTrip-action : (o : Option Action) → IsAction o → RoundTrip (write_action o) read_action o
unfolding write_action read_action
RoundTrip-action none h = RoundTrip-seq {g = λ w. w} _ (RoundTrip-bit false) (RoundTrip-pure none)
RoundTrip-action (some a) h = RoundTrip-seq _ (RoundTrip-bit true) (
    subst
      (RoundTrip (write_u32 (action_hash a)) (read_u32 >>= λ hash. pure (some (action_of hash))))
      (ap some (action_of-action_hash a h))
      (RoundTrip-map (λ hash. some (action_of hash))
        (RoundTrip-u32 (action_hash a) (action_hash-lt a h))))

pub RoundTrip-execute_entity_action :
    (p : ExecuteEntityAction)
    → IsExecuteEntityAction p
    → RoundTrip (encode_execute_entity_action p) (with_id decode_execute_entity_action) (64, p)
unfolding encode_execute_entity_action decode_execute_entity_action
RoundTrip-execute_entity_action p h = RoundTrip-with_id 64 (omega arith) (
    RoundTrip-seq _ (RoundTrip-u32 p.source_entity h.source_entity_fits) (
      RoundTrip-seq _ (RoundTrip-u32 p.target_entity h.target_entity_fits)
        (RoundTrip-map _ (RoundTrip-action p.action h.action_fits))))
