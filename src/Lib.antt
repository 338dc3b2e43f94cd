-- ===== src/Lib.antt =====
-- A model of the core logic of juneau: a VPC-style network for Kubernetes, with a controller that
-- hands out addresses and a daemon on each node that programs the BPF data plane.
--
-- The parts and their files:
-- - Ct: daemon/internal/daemon/dataplane/ctstate (DeriveNextState, InitialStateForSYN,
--   ShouldEvict, entryTTL, elapsedNs) and daemon/internal/daemon/dataplane/policyct (Reverse).
--   States, flags and protocols are numbers; times are nanoseconds.
-- - Range: controller/internal/addressrange (LastAddr, FirstAddr, PrefixRange, Intersect, and in
--   Range/Parse ParseIPv4Range, over what Go's strings and netip make of a text). The address type
--   of Go's net/netip is a record of a bit length and a number; zones are left out.
-- - Range/Candidates: controller/internal/controller/allocation_ranges.go (the candidates of a
--   pool and firstFitCandidate), and below it Counts: addresspool_counts.go in the same directory.
--   What netip.ParsePrefix and netip.ParseAddr make of a text is a parameter. The scan of a
--   candidate takes as fuel the number of its addresses, and never reads past its last one.
-- - Alloc: controller/internal/controller/allocation_helpers.go with the allocation types of
--   controller/api/v1alpha1. Alloc/Used (the values in use) and Alloc/Pools are `allocate`, and
--   Alloc/Claims is `Reconcile`, of allocationclaim_controller.go, and Alloc/Leases is
--   allocationlease_controller.go, all in controller/internal/controller. The API server is a
--   parameter: `Reader` has its answers to one allocation, `Api` and `LeaseApi` the calls of the
--   two reconcilers; so are `Netip`, client-go's retry on a conflict and the conversion of a
--   duration to seconds. The scan of a pool of numbers has max - min + 2 as its fuel, one step for
--   each number and one to see the end. Alloc/Claims/Laws says what the API server does: reads
--   from the controller's cache may be out of date, an update goes through only if it was made from
--   the stored object, and any call may fail. Alloc/Watches has the field indexes of both reconcilers and the maps
--   from an event to the names that it wakes.
-- - Owned: daemon/internal/daemon/dataplane/reconciler/ownedaddr/store.go, the union of the
--   prefixes that several owners claim and how it reaches the map external_address_pools.
--   Owned/Prefix is key.go beside it, with the network byte order of
--   daemon/internal/daemon/dataplane/internal/convert/convert.go; what package net makes of a text is
--   a parameter.
-- - Service: daemon/internal/daemon/svcpolicy (ResolvableFrom and SelectionPolicyOf). What
--   strings.Split and strings.TrimSpace make of a text is a parameter.
-- - Policy: daemon/internal/daemon/dataplane/policy, with a module per file: Policy itself is
--   rule.go, Capacity is capacity.go, Expand is expand.go, Epoch is epoch.go, Invalidator is
--   invalidator.go, Membership is membership.go, Rotator is rotator.go, and Stores is sgstore.go
--   and aclstore.go. Policy/Protocol, Policy/Contract and Policy/Resources are protocol.go,
--   policy_capacity.go, and securitygroup_types.go and networkacl_types.go in
--   controller/api/v1alpha1.
-- - Trace: daemon/internal/daemon/dataplane/trace. Trace itself and Codec, Mirror are types.go,
--   Bus is bus.go, and Store is store.go over the maps of Maps. Bus/Run has the steps of its
--   goroutines.
-- - Sweep: daemon/internal/daemon/dataplane/internal/mapsweep/mapsweep.go, and the ageing plan of
--   daemon/internal/daemon/dataplane/l2/fdb_gc.go. Sweep/Read is the read of a map by batches; its
--   fuel is the number of buckets and of entries of the map and one more, which is enough since
--   each round goes on to later buckets or takes a larger buffer.
-- - L2: daemon/internal/daemon/dataplane/l2/table.go.
-- - Bmp: bgp-speaker/internal/bmp (tracker.go, types.go). GoBGP's constants and the printing of a
--   number are parameters.
-- - Prefixes: bgp-speaker/internal/prefixsource (aggregator.go, source.go). What a source builds
--   is an argument; the network-address form and the text of a network are parameters.
--
-- How they interact: the claim controller takes the candidates of a pool from Range/Candidates,
-- takes the first address or number that no claim and no lease has, and records it in the claim's
-- lease, which the lease controller keeps for a grace period once the claim is gone.
--
-- The expansion turns a SecurityGroup or a NetworkACL into a rule set, the capacity check fits it
-- to the window of each direction, and a store has the rotator write it to a new inner map and
-- swap that in, after which the invalidator moves the policy generation if the content changed. A
-- membership change moves the same generation. A trace session's tuples are programmed by the
-- trace store, the data plane's events are decoded, seed reply mirrors in the store, and go to the
-- subscribers of the bus. The layer 2 tables hold the maps that the ageing sweep works on.
--
-- State is passed explicitly: a method that changes its receiver returns the new receiver and its
-- error, and calls are taken one after another, except for the goroutines of the bus. Most of the
-- source's stores hold a lock for the whole call; Membership writes its table before it takes the
-- lock, and Rotator takes it only to replace a handle, so that interleavings of two calls of these
-- are left out. The BPF maps are the
-- parameters `Kernel`, `MembershipTable`, `AddressMap`, `Maps`, `LiveMap`, `Batch` and `Counter`,
-- records of the calls with what the data plane reads, and their laws are the documented effects
-- of those calls; a call that fails leaves the kernel as it was. Policy/InMemory, Trace/Memory,
-- Alloc/Claims/Memory and the Tests modules give each of them in memory, with its laws. Numbers of
-- fixed width keep their wrap-around where the source converts or counts.
--
-- Not modelled: log lines, metrics and the texts of errors; the controllers of the other resources and
-- the admission webhooks, whose logic is mostly that of Kubernetes objects and their texts; the
-- registration of watches; the data plane's reconcilers, loaders and links, which are calls of netlink,
-- of the BPF loader and of the stores modelled here; the packet plane and the gRPC servers, which stand
-- on libraries; the rest of the BGP speaker, the BPF programs, generated code and the command-line
-- tools.
pub mod Prelude
pub mod Alloc
pub mod Bmp
pub mod Ct
pub mod L2
pub mod Owned
pub mod Policy
pub mod Prefixes
pub mod Range
pub mod Service
pub mod Sweep
pub mod Trace
