-- ===== src/Authz/Demo.antt =====
-- The demonstration organisations and principals of packages/authz/src/index.ts.
use fuel_cap.Base.{String, List, [], ◌∷◌, map, string_eq}
use fuel_cap.Authz.Types.{
  RoleCode, pa, op, rt, fr, cf, cs, di, au, dp, fuelcap, personal, fleet, global, us, ca,
  Organisation, Principal,
}

-- `demoOrganisations`
abbrev pub demo_organisations : List Organisation
demo_organisations =
    record {
      organisation_id = "org-fuelcap-global";
      name = "FuelCap Global";
      organisation_type = fuelcap;
      market = global;
    }
    ∷ record {
      organisation_id = "org-personal-a";
      name = "Alex Morgan · Personal";
      organisation_type = personal;
      market = us;
    }
    ∷ record {
      organisation_id = "org-personal-canada";
      name = "Mina Laurent · Personal";
      organisation_type = personal;
      market = ca;
    }
    ∷ record {
      organisation_id = "org-fleet-northstar";
      name = "Northstar Fleet Services";
      organisation_type = fleet;
      market = us;
    }
    ∷ []

abbrev pub all_organisations : List String
all_organisations = map (λ o. o.organisation_id) demo_organisations

abbrev pub demo_principal : String → String → String → RoleCode → Principal
demo_principal id name email role = record {
  principal_id = id;
  name = name;
  email = email;
  roles = role ∷ [];
  organisation_ids = all_organisations;
}

-- `demoPrincipals`
abbrev pub demo_principals : List Principal
demo_principals =
    demo_principal "principal-platform" "Priya Adams" "priya.adams@fuelcap.example" pa
    ∷ demo_principal "principal-presenter" "Francis Doherty" "francis.doherty@fuelcap.example" dp
    ∷ demo_principal "principal-operations" "Olivia Patel" "olivia.patel@fuelcap.example" op
    ∷ demo_principal "principal-risk" "Ravi Singh" "ravi.singh@fuelcap.example" rt
    ∷ demo_principal "principal-finance" "Farah Morgan" "farah.morgan@fuelcap.example" fr
    ∷ demo_principal "principal-compliance" "Chloe Bennett" "chloe.bennett@fuelcap.example" cf
    ∷ demo_principal "principal-support" "Sofia Reed" "sofia.reed@fuelcap.example" cs
    ∷ demo_principal "principal-data" "Daniel Kim" "daniel.kim@fuelcap.example" di
    ∷ record {
      principal_id = "principal-auditor";
      name = "Avery Chen";
      email = "avery.chen@fuelcap.example";
      roles = au ∷ [];
      organisation_ids = "org-fuelcap-global" ∷ [];
    }
    ∷ []
