-- ===== src/Wire/Dmabuf/Bounds.antt =====
-- dmabuf.rs: what `parse` and `check_flags` let through.
use telesthete.Base.{
  ℕ, zero, suc, ◌-◌, ◌≤◌, ◌<◌, ◌≡◌, ◌⊎◌, refl, List, [], ◌∷◌, length, drop, get_or, inl, inr, true,
  false, ltb, le→ltb, if◌then◌else◌, Bool-cases, All, arith, ◌↔◌,
}
use telesthete.Base.Bytes.{Bytes}
use telesthete.Base.Results.{Result, ok, err, Result-cases}
use telesthete.Wire.StreamHeader.{contains, with_fence, reuse}
use telesthete.Wire.Dmabuf.{
  DmabufPlane, DmabufDescriptor, DmabufError, encoded_len, parse_planes, parse,
  fd_index_out_of_range, plane_fds_needed, check_flags,
}

abbrev pub HasFd : ℕ → DmabufPlane → Type 0
HasFd fd_count p = 0 < fd_count → p.fd_index < fd_count

parse_planes_bounds :
    (n fd_count : ℕ) (bytes : Bytes) {ps : List DmabufPlane}
    → parse_planes n fd_count bytes ≡ ok ps
    → (length ps ≡ n) × All (HasFd fd_count) ps
unfolding parse_planes
parse_planes_bounds zero fd_count bytes e = ground arith
parse_planes_bounds (suc n) fd_count bytes {ps = ps} e =
    elim (Result-cases (parse_planes n fd_count (drop 9 bytes))) [
      | inl (more, r) ↦ ground (arith, r, parse_planes_bounds n fd_count (drop 9 bytes) r)
      | inr (x, r) ↦ ground (arith, r)
    ]

-- A descriptor that parses has 1 to 4 planes and at most 5 fds, no plane names an fd that the
-- packet does not carry (unless it carries none), and the input holds every plane.
pub parse_bounds :
    (input : Bytes) (d : DmabufDescriptor)
    → parse input ≡ ok d
    → (1 ≤ length d.planes)
      × (length d.planes ≤ 4)
      × (d.fd_count ≤ 5)
      × All (HasFd d.fd_count) d.planes
      × (encoded_len (length d.planes) ≤ length input)
unfolding parse
parse_bounds input d e =
    let planes = parse_planes (get_or input 20 0) (get_or input 21 0) (drop 22 input) in
    elim (Result-cases planes) [
      | inl (ps, r) ↦
          ground (
            arith,
            r,
            parse_planes_bounds (get_or input 20 0) (get_or input 21 0) (drop 22 input) r,
          )
      | inr (x, r) ↦ ground (arith, r)
    ]

covers : (ps : List DmabufPlane) (n : ℕ) → (plane_fds_needed ps ≤ n) ↔ All (λ p. p.fd_index < n) ps
unfolding plane_fds_needed
covers [] n = ((λ h. tt), (λ h. omega arith))
covers (p ∷ ps) n =
    ((λ h. (omega arith, (covers ps n).0 (omega arith))), (λ h. omega (arith, (covers ps n).1 h.1)))

fresh_iff :
    (ps : List DmabufPlane) (n : ℕ) (x : DmabufError)
    → ◌≡◌ {A = Result DmabufError (Unit {0})}
        (if ltb n (plane_fds_needed ps) then err x else ok tt)
        (ok tt)
      ↔ All (λ p. p.fd_index < n) ps
fresh_iff ps n x = (
  (λ e. (covers ps n).0 (ground arith)),
  (λ h. rw (le→ltb n (plane_fds_needed ps) ((covers ps n).1 h))),
)

-- `check_flags` accepts exactly a reused buffer that brings its fence alone, and a fresh one whose
-- planes all name fds below those that are left when the fence is taken off.
pub check_flags_iff :
    (d : DmabufDescriptor) (flags : ℕ)
    → let fence : ℕ = if contains flags with_fence then 1 else 0 in
      (check_flags d flags ≡ ok tt) ↔ (
        ((contains flags reuse ≡ true) × (d.fd_count ≡ fence))
        ⊎ ((contains flags reuse ≡ false) × All (λ p. p.fd_index < d.fd_count - fence) d.planes))
unfolding check_flags
check_flags_iff d flags = elim (Bool-cases (contains flags reuse)) [
  | inl r ↦ rw r (ground arith)
  | inr r ↦
      let fresh =
        fresh_iff d.planes (d.fd_count - (if contains flags with_fence then 1 else 0))
          (fd_index_out_of_range d.fd_count (plane_fds_needed d.planes - 1)) in
      rw r ((λ e. inr (refl, fresh.0 e)), elim [ inl (t, n) ↦ cc | inr (t, h) ↦ fresh.1 h ])
]
