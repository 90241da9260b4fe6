-- ===== src/Zfs/Guests/Decoded.antt =====
-- pveconf.go: `decodeConf` reads what `encodeConf` wrote, for every configuration that `pveConfs`
-- collects.
use mathlib.Core.Path.{subst}
use mathlib.Core.Option.{some-injective, none-ne-some}
use cs_sync.Prelude.{
  eqt, Text, txt, ◌≡◌, refl, sym, ap, ◌∙◌, inl, inr, Bool, true, false, Option, none, some, List,
  [], ◌∷◌, ◌++◌, arith, if◌then◌else◌, Bool-cases, Option-cases, All,
}
use cs_sync.Os.{Outcome, done, failed}
use cs_sync.Prelude.Decimal.{is_digit}
use cs_sync.Prelude.Dict.{Dict, lookup, lookup-insert}
use cs_sync.Prelude.Split.{
  has_byte, is_space, fields, split_first-append, has_byte-append, fields_word, fields-append,
  has_byte_word,
}
use cs_sync.Prelude.Strings.{has_prefix, eqt_sound, has_prefix-append}
use cs_sync.Zfs.Command.{Host, ZfsConfig}
use cs_sync.Zfs.Guests.{
  digits_of, disk_id, with_kind, disk_of, dataset_names, last_part, sub_dir, guest_kind, first_line,
  encode_conf, decode_conf, find_conf_file, conf_read, conf_of_disk, relative, note_conf, confs_on,
  pve_confs,
}

-- A part of the first line: not empty, and without white space.
abbrev pub IsWord : Text → Type 0
IsWord s = (eqt s [] ≡ false) × All (λ c. is_space c ≡ false) s

fields-first_line :
    (kind id : Text)
    → IsWord kind
    → IsWord id
    → fields (first_line kind id) ≡ txt "#cs-pve" ∷ kind ∷ id ∷ []
unfolding first_line eqt is_space
fields-first_line [] id (n, hk) hi = cc
fields-first_line (k ∷ kind) [] hk (n, hi) = cc
fields-first_line (k ∷ kind) (i ∷ id) (_, hk) (_, hi) = rw (
  fields-append b'#' (txt "cs-pve") ((k ∷ kind) ++ 32 ∷ i ∷ id)
      (refl, (refl, (refl, (refl, (refl, (refl, (refl, tt))))))),
  fields-append k kind (i ∷ id) hk,
  fields_word i id hi,
)

has_byte-first_line :
    (kind id : Text) → IsWord kind → IsWord id → has_byte 10 (first_line kind id) ≡ false
unfolding first_line has_byte
has_byte-first_line kind id (_, hk) (_, hi) =
    has_byte-append 10 kind (32 ∷ id) ∙ rw (has_byte_word kind hk) (has_byte_word id hi)

-- An id is one or more digits.
digits_of-All : (s : Text) → All (λ c. is_space c ≡ false) (digits_of s).0
unfolding digits_of is_digit is_space
digits_of-All [] = tt
digits_of-All (c ∷ s) = elim (Bool-cases (is_digit c)) [
  | inl e ↦ rw e (ground arith, digits_of-All s)
  | inr e ↦ rw e tt
]

if-some : (b : Bool) (x y : Text) → (if b then some x else none) ≡ some y → (b ≡ true) × (x ≡ y)
if-some true x y e = (refl, some-injective x y e)
if-some false x y e = absurd (none-ne-some y e)

disk_id-IsWord : (s id : Text) → disk_id s ≡ some id → IsWord id
unfolding disk_id
disk_id-IsWord s id e =
    let (tested, same) = if-some _ _ _ e in
    subst IsWord same (ground (arith, tested), digits_of-All s)

with_kind_lem :
    (kind prefix id : Text) (found : Option Text)
    → with_kind kind found ≡ some (prefix, id)
    → found ≡ some id
unfolding with_kind
with_kind_lem kind prefix id none e = absurd (none-ne-some _ e)
with_kind_lem kind prefix id (some i) e = ap (λ p. some p.1) (some-injective _ _ e)

disk_of-IsWord : (s prefix id : Text) → disk_of s ≡ some (prefix, id) → IsWord id
unfolding disk_of
disk_of-IsWord s prefix id e = elim (Bool-cases (has_prefix s (txt "vm-"))) [
  | inl vm ↦ disk_id-IsWord _ id (with_kind_lem _ prefix id _ (rw vm at e))
  | inr other ↦ elim (Bool-cases (has_prefix s (txt "subvol-"))) [
    | inl subvol ↦ disk_id-IsWord _ id (with_kind_lem _ prefix id _ (rw (other, subvol) at e))
    | inr other' ↦ elim (Bool-cases (has_prefix s (txt "base-"))) [
      | inl base ↦ disk_id-IsWord _ id (with_kind_lem _ prefix id _ (rw (other, other', base) at e))
      | inr last ↦ absurd (none-ne-some _ (rw (other, other', last) at e))
    ]
  ]
]

module _ (h : Host) (law : (s : Text) → h.gunzip64 (h.gzip64 s) ≡ some s) where
  open h use {World}

  pub decode_conf-encode_conf :
      (kind id body : Text)
      → IsWord kind
      → IsWord id
      → decode_conf h (encode_conf h kind id body) ≡ done (kind, id, body)
  unfolding decode_conf encode_conf eqt
  decode_conf-encode_conf kind id body hk hi =
      rw
        (
          has_prefix-append (txt "gz1:") (h.gzip64 (first_line kind id ++ 10 ∷ body)),
          law (first_line kind id ++ 10 ∷ body),
          split_first-append 10 (first_line kind id) body (has_byte-first_line kind id hk hi),
          fields-first_line kind id hk hi,
        )
        refl

  -- The text stored with the dataset `n` is the configuration of the guest whose disk it is.
  pub data IsConfOf (c : ZfsConfig) (w : World) (below enc : Text) : Type 0 where
    conf_of :
        (n prefix id body : Text)
        → relative h c n ≡ below
        → disk_of (last_part n) ≡ some (prefix, id)
        → eqt body [] ≡ false
        → h.read_conf (find_conf_file h (sub_dir prefix) id w) w ≡ done body
        → decode_conf h enc ≡ done (guest_kind (sub_dir prefix), id, body)
        → IsConfOf c w below enc

  guest_kind-IsWord : (sub : Text) → IsWord (guest_kind sub)
  unfolding guest_kind is_space eqt
  guest_kind-IsWord sub = elim (Bool-cases (eqt sub (txt "lxc"))) [
    | inl e ↦ rw e (refl, (refl, (refl, (refl, tt))))
    | inr e ↦ rw e (refl, (refl, (refl, (refl, (refl, tt)))))
  ]

  conf_read_lem :
      (sub id enc : Text) (r : Outcome Text)
      → IsWord id
      → conf_read h sub id r ≡ some enc
      → (body : Text) × (eqt body [] ≡ false)
        × (r ≡ done body)
        × (decode_conf h enc ≡ done (guest_kind sub, id, body))
  unfolding conf_read eqt
  conf_read_lem sub id enc (failed e) hi k = cc
  conf_read_lem sub id enc (done []) hi k = cc
  conf_read_lem sub id enc (done (b ∷ body)) hi k = (
    b ∷ body,
    refl,
    refl,
    subst (λ t. decode_conf h t ≡ done (guest_kind sub, id, b ∷ body)) (some-injective _ _ k)
        (decode_conf-encode_conf (guest_kind sub) id (b ∷ body) (guest_kind-IsWord sub) hi),
  )

  conf_of_disk_lem :
      (prefix id enc : Text) (w : World)
      → IsWord id
      → conf_of_disk h (some (prefix, id)) w ≡ some enc
      → (body : Text) × (eqt body [] ≡ false)
        × (h.read_conf (find_conf_file h (sub_dir prefix) id w) w ≡ done body)
        × (decode_conf h enc ≡ done (guest_kind (sub_dir prefix), id, body))
  unfolding conf_of_disk
  conf_of_disk_lem prefix id enc w hi k =
      elim (Bool-cases (eqt (find_conf_file h (sub_dir prefix) id w) [])) [
        | inl e ↦ absurd (none-ne-some enc (rw e at k))
        | inr e ↦ conf_read_lem (sub_dir prefix) id enc _ hi (rw e at k)
      ]

  -- What each entry of a map of configurations is.
  AreConfs : ZfsConfig → World → Dict Text → Type 0
  AreConfs c w m = (below enc : Text) → lookup below m ≡ some enc → IsConfOf c w below enc

  note_conf-AreConfs :
      (c : ZfsConfig) (w : World) (n : Text) (m : Dict Text) (found : Option (Text × Text))
      → disk_of (last_part n) ≡ found
      → AreConfs c w m
      → AreConfs c w (note_conf h c n (conf_of_disk h found w) m)
  unfolding AreConfs conf_of_disk note_conf
  note_conf-AreConfs c w n m none e inv below enc k = inv below enc k
  note_conf-AreConfs c w n m (some (prefix, id)) e inv below enc k =
      elim (Option-cases (conf_of_disk h (some (prefix, id)) w)) [
        | inl nothing ↦ inv below enc (rw nothing at k)
        | inr (new, got) ↦
            let k' =
              sym (lookup-insert (relative h c n) below new m)
              ∙ subst (λ o. lookup below (note_conf h c n o m) ≡ some enc) got k in
            elim (Bool-cases (eqt (relative h c n) below)) [
              | inl at_below ↦
                  let (body, filled, read, decoded) =
                    conf_of_disk_lem prefix id enc w (disk_of-IsWord (last_part n) prefix id e)
                      (got ∙ rw at_below at k') in
                  conf_of n prefix id body (eqt_sound _ _ at_below) e filled read decoded
              | inr away ↦ inv below enc (rw away at k')
            ]
      ]

  confs_on-AreConfs :
      (c : ZfsConfig) (ns : List Text) (m : Dict Text) (w : World)
      → AreConfs c w m
      → AreConfs c w (confs_on h c ns m w)
  unfolding confs_on
  confs_on-AreConfs c [] m w inv = inv
  confs_on-AreConfs c (n ∷ ns) m w inv =
      confs_on-AreConfs c ns _ w (note_conf-AreConfs c w n m (disk_of (last_part n)) refl inv)

  -- Every text that `pveConfs` gives decodes to the kind, the id and the file of the guest whose disk
  -- is the dataset it stands for.
  pub pve_confs-IsConfOf :
      (c : ZfsConfig) (w : World) (below enc : Text)
      → lookup below (pve_confs h c w) ≡ some enc
      → IsConfOf c w below enc
  unfolding pve_confs AreConfs lookup
  pve_confs-IsConfOf c w =
      confs_on-AreConfs c (dataset_names h c w) [] w (λ below enc e. absurd (none-ne-some enc e))
