-- ===== src/Enroll/Unique.antt =====
-- enroll/: the UUIDs of an enrollment profile.
use mathlib.Core.Path.{subst}
use mathlib.Core.Logic.Or
use mathlib.Core.List.{
  Mem, Mem-prop, mem-cons_self, mem-cons_of_mem, not-mem-nil, eq-or-mem_of_mem-cons, Nodup,
  Nodup-nil, Nodup-cons, map-append, append-nil,
}
use mathlib.Core.List.Perm
use mathlib.Core.List.{perm_middle}
use micromdm.Base.{
  String, ◌==◌, List, [], ◌∷◌, ◌++◌, map, Result, ok, err, panic, ◌≡◌, refl, sym, ap, by_if,
}
use micromdm.Enroll.Profile.{Profile, Payload, MdmPayloadContent, Item, new_profile, new_payload}
use micromdm.Enroll.Service.{
  Config, identity_items, certificate_items, ca_payload, tls_payload, mdm_payload_content, enroll,
}

-- What a source of random UUIDs promises, `issued` being those that it has made.
pub record IsFresh {W : Type 0} (new_v4 : W → String × W) (issued : W → List String) : Type 0 where
  pub fresh : (w : W) → ¬ Mem (new_v4 w).0 (issued w)
  pub recorded : (w : W) → issued (new_v4 w).1 ≡ (new_v4 w).0 ∷ issued w

abbrev pub item_uuid : Item → String
item_uuid (Item.plain p) = p.payload_uuid
item_uuid (Item.mdm m) = m.payload.payload_uuid

-- The UUIDs of a profile and its payloads.
abbrev pub uuids : Profile → List String
uuids p = p.payload_uuid ∷ map item_uuid p.payload_content

-- A profile is returned, and no two of its UUIDs are equal.
abbrev pub AllUnique : Result Profile → Type 0
AllUnique (ok p) = Nodup (uuids p)
AllUnique (err e) = ⊥
AllUnique panic = ⊥

uuids-append :
    (xs ys zs : List Item)
    → map item_uuid xs ++ map item_uuid ys ++ map item_uuid zs ≡ map item_uuid (xs ++ (ys ++ zs))
uuids-append [] ys zs = sym (map-append item_uuid ys zs)
uuids-append (x ∷ xs) ys zs = ap (λ z. item_uuid x ∷ z) (uuids-append xs ys zs)

module _ {W : Type 0} (new_v4 : W → String × W) (issued : W → List String)
    (source : IsFresh new_v4 issued) where
  -- Distinct UUIDs that have been issued.
  abbrev Taken : List String → W → Type 0
  Taken us w = Nodup us × ((x : String) → Mem x us → Mem x (issued w))

  start : (w : W) → Taken [] w
  start w = (Nodup-nil, λ x m. elim (not-mem-nil m) [ ])

  -- A new UUID may stand anywhere among those taken.
  insert :
      (xs ys : List String) (w : W)
      → Taken (xs ++ ys) w
      → Taken (xs ++ (new_v4 w).0 ∷ ys) (new_v4 w).1
  insert xs ys w (distinct, taken) =
      let u = (new_v4 w).0 in
      (
        Perm.nodup (Perm.symm (perm_middle xs ys))
            (Nodup-cons.1 ((λ m. source.fresh w (taken u m)), distinct)),
        λ x m. subst (Mem x) (sym (source.recorded w)) (
            Or.elim Mem-prop (eq-or-mem_of_mem-cons ((Perm.mem_iff (perm_middle xs ys)).0 m))
              (λ e. subst (λ y. Mem y (u ∷ issued w)) (sym e) mem-cons_self)
              (λ k. mem-cons_of_mem u (taken x k))),
      )

  certificate :
      (cert t : String) (fill : Payload → Payload)
      → ((p : Payload) → (fill p).payload_uuid ≡ p.payload_uuid)
      → (us : List String) (w : W) → Taken us w
      → let (items, w') = certificate_items new_v4 cert t fill w in
        Taken (us ++ map item_uuid items) w'
  unfolding new_payload
  certificate cert t fill keeps us w k =
      by_if (λ (x : List Item × W). Taken (us ++ map item_uuid x.0) x.1) (cert == "")
        (subst (λ z. Taken z w) (sym (append-nil us)) k)
        (subst (λ z. Taken (us ++ z ∷ []) (new_v4 w).1) (sym (keeps _))
          (insert us [] w (subst (λ z. Taken z w) (sym (append-nil us)) k)))

  identity :
      (svc : Config) (m : MdmPayloadContent) (u : String) (w : W)
      → Taken (u ∷ m.payload.payload_uuid ∷ []) w
      → let (items, w') = identity_items new_v4 svc m w in Taken (u ∷ map item_uuid items) w'
  unfolding new_payload
  identity svc m u w k =
      by_if (λ (x : List Item × W). Taken (u ∷ map item_uuid x.0) x.1) (svc.scep_url == "") k
        (insert (u ∷ []) (m.payload.payload_uuid ∷ []) w k)

  -- Enroll returns a profile, and no two of the UUIDs of the profile and its payloads are equal:
  -- where the source of UUIDs makes none that it has made before.
  pub enroll-AllUnique : (svc : Config) (w : W) → AllUnique (enroll new_v4 svc w).0
  unfolding enroll new_profile new_payload
  enroll-AllUnique svc w0 =
      let w1 = (new_v4 w0).1 in
      let w2 = (new_v4 w1).1 in
      let u = (new_v4 w0).0 in
      let p = (new_payload new_v4 "com.apple.mdm" w1).0 in
      let m = mdm_payload_content svc p in
      let (is, w3) = identity_items new_v4 svc m w2 in
      let (ca, w4) =
        certificate_items new_v4 svc.ca_cert "com.apple.security.root" (ca_payload svc) w3 in
      let tls =
        (certificate_items new_v4 svc.tls_cert "com.apple.security.pkcs1" (tls_payload svc) w4).0 in
      let a = identity svc m u w2 (insert (u ∷ []) [] w1 (insert [] [] w0 (start w0))) in
      let b =
        certificate svc.ca_cert "com.apple.security.root" (ca_payload svc) (λ p. refl) _ w3 a in
      let c =
        certificate svc.tls_cert "com.apple.security.pkcs1" (tls_payload svc) (λ p. refl) _ w4 b in
      subst (λ z. Nodup (u ∷ z)) (uuids-append is ca tls) c.0
