-- ===== src/Lib.antt =====
-- A verification of kube-vip-cloud-provider, which gives addresses to Kubernetes services of the
-- type LoadBalancer.
--
-- A service is reconciled by `syncLoadBalancer` (pkg/provider/loadBalancer.go). It reads the
-- address pool of the service's namespace from a config map, lists the services that have
-- addresses, and builds from their annotations the set of addresses in use and, if addresses may
-- be shared, the ports in use at each address. An address that can be shared is preferred; else
-- the address manager (pkg/ipam/ipam.go) looks for a free address of the pool, for one family or
-- for two. The addresses are then written to the service's annotation. The controller of
-- pkg/provider/loadbalancerclass.go decides which changes of a service lead to a reconciliation,
-- and keeps a finalizer on the services that it serves. Whether that controller runs or the default
-- service controller, main.go and pkg/provider/provider.go decide each for itself, from one
-- variable of the environment.
--
-- The files:
--   Prelude   shared names; Boolean tests, lists, texts, and Go's errors as values
--   Netip     Go's net/netip: addresses as numbers with a family or zone, ParseAddr, ParsePrefix,
--             String
--   Netipx    go4.org/netipx as a record of operations, a parameter of all code that uses it, and
--             the laws that the theorems take as hypotheses: SetLaws on IPSet.Contains and
--             IPSet.Ranges, AddLaws on IPSetBuilder.Add, RangeLaws on IPSetBuilder.AddRange,
--             PrefixLaws on all of IPSetBuilder, IPSet.Prefixes and RangeOfPrefix. IPRangeFrom and
--             the builder drop the zone of an IPv6 address, and a set has no address with a zone.
--             Netipx/Model is an implementation by sorted intervals that has them.
--   Kube      services, config maps and Go's map[string]string
--   Config    pkg/config/config.go: GetKubevipLBConfig
--   Ipam      pkg/ipam. FreeAddress: FindFreeAddress. AddressBuilder: parseCidrs,
--             buildHostsFromCidr, buildAddressesFromRange. Families: SplitCIDRsByIPFamily,
--             SplitRangesByIPFamily. Manager: FindAvailableHostFromRange and
--             FindAvailableHostFromCidr, with the global variable Manager as a state that they
--             take and return.
--   Provider  pkg/provider. Pool: discoverPool, getConfig. Interface: discoverInterface. Sharing:
--             parseAddrList, mapImplementedServices, discoverSharedVIPs. Vips: discoverVIPs,
--             discoverVIPsSingleStack, discoverVIPsDualStack, discoverFromPool, discoverAddress.
--             Cluster: the API server and retry.RetryOnConflict as a record of operations on a
--             state, a parameter. Sync: checkLegacyLoadBalancerIPAnnotation, syncLoadBalancer,
--             createConfigMap. CloudLoadBalancer: EnsureLoadBalancer, UpdateLoadBalancer,
--             EnsureLoadBalancerDeleted, GetLoadBalancer. Controller: needsUpdate, needsCleanup,
--             addFinalizer, removeFinalizer, processServiceCreateOrUpdate of loadbalancerclass.go;
--             Controller/Queue: syncService, processNextWorkItem, runWorker, over the work queue
--             and the informer's cache as parameters; Controller/System: the event handlers and
--             enqueueService, and the step relation in which events of the informer, turns of the
--             worker and writes of others to the cluster come in any order. Registration:
--             newKubeVipCloudProvider, Initialize, LoadBalancer of provider.go, newLoadBalancer,
--             and disabledServices.go, over the environment and client-go as parameters.
--   Command   main.go: main, controllerInitializers and cloudInitializer, over the cloud controller
--             manager's command, its flags and its controllers as parameters
--   Testutil  pkg/testutil/service.go: NewService and the tweaks
--   Ipam/Tests, Ipam/Histories, Ipam/PoolTests, Provider/Fixtures, Provider/VipTests,
--   Provider/RangeTests, Provider/SyncTests, Provider/ControllerTests, Command/Tests,
--   Testutil/Tests: runs over Netipx/Model and Provider/Cluster/Store,
--             and the theorems at concrete inputs.
--
-- Loops over slices are recursion on lists. The two loops of FindFreeAddress over a range run on
-- fuel, one more than the distance of the range's ends, which is the number of its addresses, and
-- the loop leaves at the last of them; the result `diverged` stands for a run that is out of fuel.
-- Addresses are numbers below 2^32 or 2^128, with Next and Prev giving the zero address at
-- the ends. Go does not fix the order of a loop over a map: the reconciliation takes that order
-- as a parameter, of which the theorems assume only that it yields entries of the map. Int32 ports
-- are only compared, so they are natural numbers. A Go error is the program's own OutOfIPsError, a
-- text, or an error of a library.
--
-- What ends the process, os.Exit or klog.Fatalf, is a value that the rest of main passes on.
--
-- Not modelled: logging; the wiring of client-go's informers, event recorder and work queue in the
-- constructor of loadbalancerclass.go, and its Run, which waits for the cache and starts the worker
-- on a timer; init of provider.go, which hands the factory to the library. The worker takes a given
-- number of items, which the theorems on it leave open. Events are modelled by their reasons. The
-- end-to-end tests drive a cluster.
pub mod Prelude
pub mod Netip
pub mod Netipx
pub mod Kube
pub mod Config
pub mod Ipam
pub mod Provider
pub mod Testutil
pub mod Command
