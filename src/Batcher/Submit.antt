-- ===== src/Batcher/Submit.antt =====
-- `submit` on the whole batcher beside `submit_slot` on the target's CDN.
use mirror_mirage.Prelude.{◌≡◌, refl, sym, ap, subst, leb, length, inl, inr, Bool-cases}
use mirror_mirage.Config.{Seconds, DaemonConfig}
use mirror_mirage.Dict
use mirror_mirage.FilePath.{text_keys}
use mirror_mirage.Mapper.{PurgeTarget}
use mirror_mirage.Batcher.{
  Batcher, Urls, add, flush_locked, ensure_cdn, buffer_of, record_url, submit,
}
use mirror_mirage.Batcher.Slot.{
  Slot, slot, Refines, flush_slot, ensure_slot, recorded, record_slot, submit_slot, with_url,
  flush_locked-Refines, ensure-Only, recorded-Only, Only-own, Only-trans,
}

record-Refines :
    (cfg : DaemonConfig) (now : Seconds) (target : PurgeTarget) (buf : Urls) (b : Batcher)
    → Refines target.cdn_name b
        (record_slot cfg now target buf (slot target.cdn_name b))
        (record_url cfg now target buf b)
unfolding record_slot record_url
record-Refines cfg now target buf b =
    elim (Bool-cases (leb cfg.batch_max_size (length (add target.url buf)))) [
      | inl e ↦ rw e (full (flush_locked-Refines target.cdn_name (with_url now target buf b)))
      | inr e ↦ rw e (record { slots = recorded-Only now target buf b; batch = refl })
    ]
  where
    full :
        Refines target.cdn_name
          (with_url now target buf b)
          (flush_slot target.cdn_name (slot target.cdn_name (with_url now target buf b)))
          (flush_locked target.cdn_name (with_url now target buf b))
        → Refines target.cdn_name b
            (flush_slot target.cdn_name (recorded now target.url buf (slot target.cdn_name b)))
            (flush_locked target.cdn_name (with_url now target buf b))
    full r =
        let s = recorded now target.url buf (slot target.cdn_name b) in
        let o = recorded-Only now target buf b in
        let own = Only-own target.cdn_name s b (with_url now target buf b) o in
        let r' =
          subst
            (λ (t : Slot).
              Refines target.cdn_name (with_url now target buf b) (flush_slot target.cdn_name t)
                (flush_locked target.cdn_name (with_url now target buf b)))
            own r in
        record {
          slots =
              Only-trans target.cdn_name s (flush_slot target.cdn_name s).0 b
                (with_url now target buf b)
                (flush_locked target.cdn_name (with_url now target buf b)).0 o r'.slots;
          batch = r'.batch;
        }

-- Submitting a target does to its CDN's slot what `submit_slot` does, hands the same batch to the
-- queue, and leaves the slots of all other CDNs as they were.
pub submit-Refines :
    (cfg : DaemonConfig) (now : Seconds) (target : PurgeTarget) (b : Batcher)
    → Refines target.cdn_name b
        (submit_slot cfg now target (slot target.cdn_name b))
        (submit cfg now target b)
unfolding submit submit_slot slot
submit-Refines cfg now target b =
    let b' = ensure_cdn target.cdn_name b in
    let s = ensure_slot (slot target.cdn_name b) in
    let o = ensure-Only target.cdn_name b in
    let own : slot target.cdn_name b' ≡ s = Only-own target.cdn_name s b b' o in
    let buf : buffer_of (Dict.get target.cdn_name b'.buffers) ≡ buffer_of s.buffer =
      ap (λ (t : Slot). buffer_of t.buffer) own in
    let r =
      subst
        (λ (t : Slot).
          Refines target.cdn_name b' (record_slot cfg now target (buffer_of s.buffer) t)
            (record_url cfg now target (buffer_of s.buffer) b'))
        own (record-Refines cfg now target (buffer_of s.buffer) b') in
    subst
      (λ (u : Urls).
        Refines target.cdn_name b (record_slot cfg now target (buffer_of s.buffer) s)
          (record_url cfg now target u b'))
      (sym buf)
      (record {
        slots =
            Only-trans target.cdn_name s (record_slot cfg now target (buffer_of s.buffer) s).0 b b'
              (record_url cfg now target (buffer_of s.buffer) b').0 o r.slots;
        batch = r.batch;
      })
