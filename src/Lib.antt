-- ===== src/Lib.antt =====
-- A verification library for the Go server of this repository: the API under api/internal, which
-- stores creators' assets as pages of blocks and sends them to linked applications.
--
-- The parts, and the files that model them (paths are from the repository's root):
--   Base           what the rest shares: tests into Bool, the class of equality, lists, members of
--                  lists, searches, and the results of fallible calls with their bind.
--   Block          api/internal/block, the content of an asset.
--     Vocab, Layout  element.go and layout.go: element types, roles, options, slots and widths.
--     Content        the contents of element.go, entry_table.go, preset.go, theme.go and pack.go,
--                    with `Empty`, `ItemIDs`, elements and blocks.
--     Catalog        catalog.go: every definition of every kind, and the lookups.
--     Placement      placement.go: `Place`, `fill`, `take` and `Pinned`.
--     Tray           tray.go: `Offers` and `NewBlock`.
--     Structure      validation.go: `ValidateContentLimits` and `ValidateStructure`.
--     Builder        validation.go: `ValidateBuilderConstraints`.
--     Floor          floor.go: `ContentFloor` and `RequiredRoles`.
--     Facets         facet.go: the facet tables, `FacetByKey` and `MeasureFacets`.
--     Consistency    what every entry of the catalogs satisfies; Placement and Tray rest on it.
--   Delivery       api/internal/delivery, the queue of assets for linked instances.
--     Target         delivery.go: `chooseTarget`.
--     Waiting        waiting.go: the hub of held requests, `hold`, `release` and `signal`.
--     Table          the statements on `instance_deliveries` in api/internal/db/queries.sql.go.
--     Service        service.go and sweep.go: `Queue`, `Discard` and `Sweep`.
--     Collect        collect.go: `Collect`, `claim` and `release`.
--   Linking        api/internal/linking, the link of an instance and its credentials.
--     Codes          linking.go: `newCode`, user codes, `newCredential` and `credentialHash`.
--     Scopes         linking.go: `canonicalScopes`.
--     Device         service.go: `Start`, `Approve`, `Deny`, `Poll` of a device link, with their
--                    statements on `link_requests` and `issueGrant`.
--     Credentials    credentials.go: `Refresh` and `Authenticate`, with their statements.
--     Browser        service.go and linking.go: `StartAuthorization`, `ApproveAuthorization`,
--                    `DenyAuthorization` and `Exchange`, with their statements on `link_authorizations`.
--     Rate           service.go: `takeRate`, with its statement on `link_rate_limits`.
--   Asset          api/internal/asset, the assets themselves.
--     Table          the columns of `assets`, and the statements that change them.
--     Lifecycle      publish.go, identity.go, discovery.go, deletion.go and withholding.go, and the
--                    guards of an edit of blocks (blocks.go), of a picture (media.go) and of the ingest
--                    of a revision (ingest.go); Runs is what may happen to the library.
--     Deliverable    deliverable.go: what the delivery queue reads of an asset.
--   Protected      api/internal/protected, the prompts that readers are not shown: `SyncPromptFragments`,
--                  `RestorePromptFragments` and `ImportPromptFragments` with their tables.
-- A component's file holds its definitions, the files below it hold the proofs, named for what they
-- prove, and the Examples file of a part runs it on concrete inputs. Placement, Tray and Builder
-- read the catalogs; Tray builds blocks that Structure accepts; Collect runs the statements of Table,
-- chooses by Target and waits in the hub of Waiting; Credentials reads tokens by Codes,
-- and Device and Browser add the instances that Credentials keeps. Lifecycle asks Floor what a kind requires.
-- Deliverable fills the interface `Catalog` of Service from the rows that Lifecycle keeps and the
-- apps that Protected stores.
--
-- How the code is modelled:
--   A struct is a record, a Go string type is a string, so that values outside a closed vocabulary
--   are values of the model; a nil pointer or interface is `none`; a UUID is its number; a map
--   literal is an association list. A function that returns an error returns a `Result` whose errors
--   carry what the message names; the wording of messages is not modelled. A slot index out of range,
--   and the second close of a channel, are Go's panics and stand as errors, which the theorems
--   exclude. Loops are structural recursion over the list that they range over, so no fuel is
--   needed; `newCode` recurses on the buffers that the random source fills, and the wait of `Collect`
--   on the list of its turns.
--   A database table is its list of rows and a statement is a function on it; a transaction that
--   fails leaves the table as it was. Transactions run one after the other: row locks, and the rows
--   that `skip locked` passes over, are not modelled. The clock of the database and the clock of the
--   process are two numbers. Numbers that grow are unbounded where the code's are 32 or 64 bits wide.
--
-- Parameters, for code that is not in the repository or that is an interface in it: `uuid.New`
-- (`new_id`), the byte lengths of `encoding/json` (`Encoder`), base64 decoding, SHA-256, the asset
-- catalog and the linking layer as the delivery package sees them (`Catalog`, `Instances`), the
-- addresses of images, the fingerprint of an asset's contents (`fingerprint`), and how an address is
-- split (`parse`) and a verifier digested (`challenge_of`). The hashes of codes, proofs and tokens that a
-- call draws or checks are arguments of Device, Browser and Credentials.
--
-- What a page becomes in an edit or in the ingest of a revision, and whether the generation of its asset
-- moves with it, are arguments of the step in Lifecycle/Runs: the fingerprint that decides it also reads
-- pictures and preserved data, which have no table in the model. `AssetRow` has the columns that the
-- modelled operations decide by or write; the cover, the origin, the tags and the texts beside the name
-- are left out, and no theorem speaks of them.
--
-- Not modelled: the JSON decoders of contents and files, the wording of facts.go, the ingest,
-- revisions, search, images and export of assets, accounts, mail, the HTTP handlers, storage, the
-- migration, and the web client; they are I/O, glue over SQL, or codecs. In the parts above: the
-- library mirror and the artifact check of the delivery package, the declarations and the clean-up
-- of old rows of the linking package.
pub mod Asset
pub mod Base
pub mod Block
pub mod Delivery
pub mod Linking
pub mod Protected
