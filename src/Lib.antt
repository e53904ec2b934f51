-- ===== src/Lib.antt =====
-- The web client of yafu, a dashboard of Flux clusters: TypeScript under web/src.
--
-- The client polls the REST API through the queries of web/src/lib/queries.ts, which fetch with
-- web/src/lib/api.ts and keep their answers in a cache; the events of web/src/lib/stream.ts mark
-- parts of the cache as stale. The pages derive what they show from those answers: the graph of
-- web/src/lib/depGraph.ts, filters, selections, counts. The backend in Go is not modelled.
--
-- Base        lists, texts, maps, stable sorting, decimals. A text is a list of UTF-16 code units; a
--             JavaScript Map or Set is a list in the order of insertion.
-- ApiTypes    web/src/lib/api-types.ts: the schemas as records, unions of literals as data types.
-- DepGraph    web/src/lib/depGraph.ts. Index has the two lookups and `resolve`, Link the loop over a
--             cluster's applications, Build the grouping and `build_cluster_graphs`; Order forgets
--             the order of the applications; the other children have the proofs.
-- Stream      web/src/lib/stream.ts. `on_invalidate` is the handler, `schedule_invalidate` the
--             debounce, `unmount` the cleanup; `Step` interleaves them with the passing of time and
--             the firing of timers, and `Reach` is any sequence of steps.
-- Uri         `encodeURIComponent` of ECMA-262, with UTF-8, and the decoder that it is checked by.
-- Queries     web/src/lib/queries.ts: keys, paths and options of the hooks, the URLs and requests of
--             the mutations, and the bulk reconciliation.
-- Api         web/src/lib/api.ts: `fetch_json` and `handle_unauthorized`.
-- Shell       web/src/App.tsx: preferences, storage, the chosen cluster.
-- Client      web/src/App.tsx: what each part of the page asks of App, and sequences of such events.
-- Markup      what a component draws: a list of pieces (texts, dots, rows, buttons, inputs) in the
--             order of the document, each with what a click or a change of it asks for; the calls of
--             a mutation; States.tsx, Stat.tsx and FilterChip.tsx of web/src/components.
-- Palette     web/src/components/Topbar.tsx: the command palette, the bell, the bar.
-- Apps        web/src/pages/Apps.tsx: filters and the selection; View has the page, Refine the
--             selection as a set of rows that the page implements.
-- Dependencies  web/src/pages/Dependencies.tsx: the filters, the hovering, and in View the page.
-- AppDetail   web/src/pages/AppDetail.tsx: the live log. Drawer has the drawer and its tabs, LogsTab,
--             ResourceTabs (drift and tree), EventsTab (events and manifest), HistoryTab the tabs,
--             RenderTab, RenderDiff and DiffBody the rendered diff.
-- Chrome      web/src/components: Sidebar, ClusterCard, StatusChip, KindBadge, Sparkline.
-- Pages       web/src/pages: Images, Alerts, Sources, Activity, OnCall (Mobile.tsx), Fleet, Settings.
--             Rows has the calls that the rows of three of them share.
--
-- A page is a function of its state, of the answers of its queries and of the calls under way, and
-- each of its handlers is a function on its state, or on the calls, by the action that the piece asks
-- for.
--
-- Parameters stand for what is outside the source or depends on Unicode and locale data:
-- `localeCompare`, `toLowerCase`, `trim`, the serializer of URLSearchParams, JSON, `mutate` of a
-- mutation, `window.confirm`, the clock and `toLocaleTimeString`, what the engine writes of an
-- inherited function, the percentage that Fleet.tsx writes. Where a theorem relies on one of them, a
-- hypothesis says what it promises (`IsConsistent`, `IsJson`, `IsMutate`), and a test module has an
-- instance. The calls of the bulk reconciliation settle as a parameter says. Loops
-- are structural recursion; the only fuel is that of `digits`, which writes a number in decimal, and
-- `number_of-decimal` shows that it is enough.
--
-- Not modelled: inline styles, class names that only lay out, the headings of columns, the paths of
-- icons, curves and sparklines, the measuring, scrolling and focus of elements, the cache of TanStack
-- Query itself, and the backend.
pub mod Api
pub mod ApiTypes
pub mod AppDetail
pub mod Apps
pub mod Base
pub mod Chrome
pub mod Client
pub mod DepGraph
pub mod Dependencies
pub mod Markup
pub mod Pages
pub mod Palette
pub mod Queries
pub mod Shell
pub mod Stream
pub mod Uri
