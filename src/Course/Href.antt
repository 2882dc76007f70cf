-- ===== src/Course/Href.antt =====
-- References of resources: crates/signalk-server/src/course/manager.rs.
use Prim.Native.String as S
use Prim.Native.String.append
use signalk_rs.Prelude.{◌≡◌, refl, sym, ap, ◌∙◌, [], ◌∷◌, String, ◌<>◌}
use signalk_rs.Prelude.Parts.{
  split_on, join_on, IsFree, split_on-append, split_on-parts, join_on-split_on,
}
use signalk_rs.Server.{ok}
use signalk_rs.Course.Resolve.{slash, trim_slashes, href_parts, parse_resource_href}

trim_slashes-resources :
    (t : String) → trim_slashes (S.◌∷◌ slash ("resources" <> t)) ≡ "resources" <> t
unfolding trim_slashes
trim_slashes-resources t =
    ap trim_slashes (append.cons "r" "esources" t) ∙ sym (append.cons "r" "esources" t)

href_parts-id :
    (href resource_type id : String)
    → href_parts href ("resources" ∷ resource_type ∷ split_on slash id) ≡ ok (resource_type, id)
unfolding href_parts
href_parts-id href resource_type id =
    let (p, ps, e) = split_on-parts slash id in
    ap (λ parts. href_parts href ("resources" ∷ resource_type ∷ parts)) e
    ∙ ap (λ i. ok (resource_type, i)) (ap (join_on slash) (sym e) ∙ join_on-split_on slash id)

root-IsFree : IsFree slash "resources"
unfolding IsFree
root-IsFree = (refl, (refl, (refl, (refl, (refl, (refl, (refl, (refl, (refl, tt)))))))))

-- The reference to a resource, "/resources/", its type, "/" and its id, is taken apart again, where
-- the type has no slash; the id may have some.
parse_resource_href-join :
    (resource_type id : String)
    → IsFree slash resource_type
    → parse_resource_href (S.◌∷◌ slash (join_on slash ("resources" ∷ resource_type ∷ id ∷ [])))
      ≡ ok (resource_type, id)
unfolding parse_resource_href join_on IsFree
parse_resource_href-join resource_type id free =
    let rest = resource_type <> S.◌∷◌ slash id in
    let href = S.◌∷◌ slash ("resources" <> S.◌∷◌ slash rest) in
    ap (λ t. href_parts href (split_on slash t)) (trim_slashes-resources (S.◌∷◌ slash rest))
    ∙ (ap (href_parts href) (
          split_on-append slash "resources" rest root-IsFree
          ∙ ap (◌∷◌ "resources") (split_on-append slash resource_type id free))
        ∙ href_parts-id href resource_type id)
