-- ===== src/Packets/Interaction/Safety.antt =====
-- The decoders of interaction.rs end no process, whatever the bytes.
use sky_saga_rs.Common.{none}
use sky_saga_rs.BitStream.Reader.Safety.{Safe, Safe-pure, Safe-bind, Safe-if, Safe-bit, Safe-u32}
use sky_saga_rs.Packets.Interaction.{
  decode_interact_with_entity, read_action, decode_execute_entity_action,
}

pub Safe-interact_with_entity : Safe decode_interact_with_entity
unfolding decode_interact_with_entity
Safe-interact_with_entity =
    Safe-bind _ Safe-u32 (λ interacting_entity. Safe-bind _ Safe-u32 (λ target_entity. Safe-pure _))

pub Safe-action : Safe read_action
unfolding read_action
Safe-action =
    Safe-bind _ Safe-bit
      (λ present. Safe-if present (Safe-bind _ Safe-u32 (λ hash. Safe-pure _)) (Safe-pure none))

pub Safe-execute_entity_action : Safe decode_execute_entity_action
unfolding decode_execute_entity_action
Safe-execute_entity_action = Safe-bind _ Safe-u32 (λ source_entity.
    Safe-bind _ Safe-u32 (λ target_entity. Safe-bind _ Safe-action (λ action. Safe-pure _)))
