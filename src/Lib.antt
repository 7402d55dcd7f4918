-- ===== src/Lib.antt =====
-- The web framework of this repository, modelled by parts. A request comes to an application
-- (src/app.rs), whose router picks one of its services by the path; a service is most often a resource
-- (src/resource.rs), which tries its routes in order; a route (src/route.rs) is a service behind
-- filters (src/filter.rs). Beside these stand the answers by static files (src/fs.rs).
--
-- The parts and their files:
-- - Prelude and its children: names of the libraries passed on, lists measured by native numbers,
--   results, signed integers by sign and size, and texts as lists of code points, with the trim, the
--   split and the parser of i64 that the Rust library documents.
-- - Futures: a future of the crate `futures` 0.1. What it waits for lies outside the program, so it is
--   the number of polls that find it unfinished and then its result; after that a poll of it panics.
--   Futures/Combinators has what `Future::then` documents, as the record Combinators, and what is made
--   of it; Futures/Drive polls a state to its end, and says when its polls are those of a future;
--   Futures/Collect makes a future of the polls of a state.
-- - Helpers: the boxes of src/helpers.rs around services and factories.
-- - Http: HttpRequest of src/request.rs, ServiceRequest and ServiceResponse of src/service.rs. The
--   types of `actix_http` (Response, Error, how an error becomes a response) are the record HttpTypes,
--   a parameter of everything that uses them.
-- - Info: ConnectionInfo of src/info.rs, by what is read of a request. Info/Elements is about the loop
--   over the header Forwarded, Info/Sources about where each part comes from.
-- - Filter: the filters as data, a filter of the user being a test on the request, with their
--   builders and `check`. Filter/Laws has the theorems.
-- - Route: RouteBuilder, Route, CreateRouteService and RouteService, and the wrapper that answers an
--   error of the pipeline. Route/Check is which requests a route takes.
-- - Handler: the services and futures of src/handler.rs, over the records Responder and FromRequest of
--   its traits. Handler/Pipeline has what `RouteBuilder::to` and `to_async` of src/route.rs join, the
--   extractor and the handler; Handler/Answer is about the answer of such a route, Handler/Arguments
--   about handlers of several arguments, which are a list here. Handler/Factory is how the service of a
--   route comes to be; what `actix_service` joins is the record Joins.
-- - Responder: the responders of src/responder.rs, over the record Responses of what actix_http builds.
--   Responder/Nested is about return types within each other.
-- - Extractor: the tuples of src/extractor.rs; Extractor/Alive is about what holds between two polls of
--   a tuple, Extractor/Parts about one poll, Extractor/Tuple drives it to its end, Extractor/Outcome
--   makes one future of it, of as many polls as its parts can take together, and Extractor/Sharing is
--   about the payload that the parts share. Extractor/Payload has the other extractors, over the record Bodies of what actix_http does with a body; Extractor/Payload/Text is about the text of
--   a body, and about optional arguments.
-- - Resource: the builder, the factory, CreateResourceService with its poll by the parts of the loop,
--   and the call. Resource/Items is about its routes between two polls, Resource/Create drives it to its
--   end, Resource/Dispatch is about the call. Resource/Handlers is a resource whose routes are built for
--   handlers.
-- - App: the builder, the cells of the defaults that an application shares with its resources (a store
--   in which a resource knows its own place), the start, CreateAppService and the call; with them
--   its own HttpNewService. The router of `actix_router` is the record RouterTypes.
--   App/Defaults is about the start, App/Create drives the future, App/Dispatch is about the call,
--   App/Answer about a request on its way to a handler and back, App/Server about the whole of the
--   states, the entry point, the middleware around it and the services. An `impl NewService` is the
--   future of its service, and a middleware is what `ApplyNewService` makes of such a future.
-- - State: the states of an application, of src/state.rs, and AppStateFactoryResult of src/app.rs,
--   which fills the extensions. The type map of `actix_http` is the record ExtensionTypes, with the
--   laws of insert and get. State/Round is about one round of the loop, State/Start drives the future,
--   State/Registered is about App::state and App::state_factory and the calls of AppStateService.
-- - Compress: the body of src/middleware/compress.rs that is compressed while it is sent. The codecs
--   are the record Codec, a parameter, and the body that is wrapped is the list of what its polls give.
--   Compress/Response is which bodies are compressed, Compress/Stream is about what is sent.
--   Compress/Accept is AcceptEncoding, over the numbers and names of the record Qualities, with
--   Compress/Accept/Tags on what it reads and Compress/Accept/Chosen on what it picks; Compress/Call is the middleware's call and its future.
-- - DefaultHeaders: src/middleware/defaultheaders.rs, over the record HeaderMaps of what a header map
--   documents. DefaultHeaders/Lookup is about what a response has behind it.
-- - Logger: the format of src/middleware/logger.rs, over what its regular expression matches.
--   Logger/Line is about the line that is logged.
-- - Framed: src/framed_handler.rs, with src/framed_route.rs in Framed/Route; Framed/Pipeline is what a
--   route comes to, Framed/Factory how its service is made, and Framed/Built what a route that is
--   built for a handler does. Framed/App is src/framed_app.rs: Framed/App/Loop and Framed/App/Create are about
--   how its services come to be, Framed/App/Answer about a request.
-- - Fs/Range: HttpRange::parse. Fs/Segments: PathBuf::from_request on Unix. Fs/Chunks: the stream
--   ChunkedReadFile over a file that nobody writes meanwhile, with Fs/Chunks/Delivery on a file that has
--   the range and Fs/Chunks/Truncated on one that is too short for it. Fs/NamedFile: NamedFile::respond_to,
--   its headers, dates and tags being the record HeaderTypes, a parameter, with the setters in
--   Fs/NamedFile/Setters and the conditional requests in Fs/NamedFile/Conditional and
--   Fs/NamedFile/Unchanged. Fs/Disk opens a file, over
--   the records Media and Disk of what the libraries and the file system do. Fs/Service: StaticFiles,
--   with Fs/Service/Confined on what it reads and Fs/Service/Served on a file that it finds.
--   Fs/Listing: directory_listing and what is visible.
--
-- Conventions. A panic is a value. An `impl Future` is a state and a `poll` that returns what the poll
-- gives and the state after it; `?` in a loop leaves the loop with what was done before. u64 is a
-- number below 2 ^ 64 with its wrap-around written out, and a cast between i64 and u64 is written out
-- too. The callers that poll a future to its end take fuel, and the theorems about them say how much
-- is enough.
--
-- Not modelled: macros and types of other crates, what a middleware of the user makes of the service
-- behind it, which is a function that a program registers, the extensions of `App`, which nothing at
-- this commit writes before the start, the middleware src/middleware/errhandlers.rs, whose call is not implemented, and the
-- thread pools. Formatting for Debug and for logs is left out.
pub mod Prelude
pub mod Futures
pub mod Helpers
pub mod Http
pub mod Info
pub mod Filter
pub mod Route
pub mod Handler
pub mod Responder
pub mod Extractor
pub mod Resource
pub mod App
pub mod State
pub mod Compress
pub mod DefaultHeaders
pub mod Logger
pub mod Framed
pub mod Fs
